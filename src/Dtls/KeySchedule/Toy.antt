-- ===== src/Dtls/KeySchedule/Toy.antt =====
-- A toy MAC that meets the assumptions.
use ot_commissioner_rs.Base.{◌≡◌, ap, some, Bytes, length, replicate}
use ot_commissioner_rs.Dtls.KeySchedule.{Mac}

-- Its tag is the length of the input, 32 times.
abbrev pub toy_tag : Bytes → Bytes
toy_tag input = replicate 32 (length input)

pub toy_length : (key input tag : Bytes) → some (toy_tag input) ≡ some tag → length tag ≡ 32
toy_length key input tag e = ap length {x = tag} {y = toy_tag input} (cc)

abbrev pub toy_mac : Mac
toy_mac = record { mac = λ key input. some (toy_tag input); length-mac = toy_length }
