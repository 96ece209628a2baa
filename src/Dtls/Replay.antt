-- ===== src/Dtls/Replay.antt =====
-- `DtlsReplayWindow` of crates/thread-dtls/src/driver.rs.
pub mod Window
use ot_commissioner_rs.Base.{
  ℕ, ◌+◌, ◌-◌, ◌*◌, ◌/◌, ◌%◌, ◌^◌, Bool, false, ◌||◌, Option, none, some, ltb, leb, ◌==◌,
  if◌then◌else◌, bit_and, bit_or,
}

pub record DtlsReplayWindow : Type 0 where
  pub newest_sequence : Option ℕ
  pub seen : ℕ

-- `DtlsReplayWindow::new`
abbrev pub new : DtlsReplayWindow
new = record { newest_sequence = none; seen = 0 }

-- The two branches of `has_seen`.
seen_under : Option ℕ → ℕ → ℕ → Bool
seen_under none seen sequence = false
seen_under (some newest) seen sequence =
    if ltb newest sequence
    then false
    else leb 64 (newest - sequence) || bit_and (seen / 2 ^ (newest - sequence)) 1 == 1

-- `DtlsReplayWindow::has_seen`
unfoldable pub has_seen : DtlsReplayWindow → ℕ → Bool
unfolding seen_under
has_seen w sequence = seen_under w.newest_sequence w.seen sequence

-- The arms of `mark_seen`; the shifts are of a u64.
marked : Option ℕ → ℕ → ℕ → DtlsReplayWindow
marked none seen sequence = record { newest_sequence = some sequence; seen = 1 }
marked (some newest) seen sequence =
    if ltb newest sequence
    then record {
      newest_sequence = some sequence;
      seen =
          if leb 64 (sequence - newest)
          then 1
          else bit_or (seen * 2 ^ (sequence - newest) % 2 ^ 64) 1;
    }
    else record {
      newest_sequence = some newest;
      seen = if ltb (newest - sequence) 64 then bit_or seen (2 ^ (newest - sequence)) else seen;
    }

-- `DtlsReplayWindow::mark_seen`
unfoldable pub mark_seen : ℕ → DtlsReplayWindow → DtlsReplayWindow
unfolding marked
mark_seen sequence w = marked w.newest_sequence w.seen sequence
