-- ===== src/Meshcop/Coap/UriPath/Paths.antt =====
-- Setting a path and reading it back.
use ot_commissioner_rs.Base.{
  err, arith, Result, ℕ, stuck, subst, All-retain_self, retain-append, retain-eq_self, ◌≡◌, refl,
  sym, ◌∙◌, true, false, not, Option, none, some, List, [], ◌∷◌, ◌++◌, map, All, retain, ◌==◌,
  if◌then◌else◌, Bytes, ok, Bool-cases, inl, inr, append_assoc, append-nil,
}
use ot_commissioner_rs.Base.Utf8.{
  after_slash, is_utf8, slash, split, split-cons, join-split, split-is_utf8,
}
use ot_commissioner_rs.Errors.{Error}
use ot_commissioner_rs.Meshcop.Coap.{CoapType, post, CoapOption, CoapMessage, is_empty}
use ot_commissioner_rs.Meshcop.Coap.UriPath.{
  posted, post_request, is_path, path_option, trimmed, push_segments, set_uri_path, segments,
  uri_path,
}

push_segments-ok :
    (ss : List Bytes) (options : List CoapOption)
    → (push_segments ss options).1 ≡ ok tt
    → (push_segments ss options).0 ≡ options ++ map path_option ss
unfolding push_segments
push_segments-ok [] options e = sym (append-nil options)
push_segments-ok (s ∷ ss) options e = elim (Bool-cases (is_empty s)) [
  | inl none_of ↦ absurd (let k = rw none_of at e in cc)
  | inr some_of ↦ rw some_of (
      push_segments-ok ss (options ++ path_option s ∷ []) (rw some_of at e)
      ∙ append_assoc options (path_option s ∷ []) (map path_option ss))
]

segments-path_option :
    (ss : List Bytes) → All (λ s. is_utf8 s ≡ true) ss → segments (map path_option ss) ≡ ok ss
unfolding segments
segments-path_option [] u = refl
segments-path_option (s ∷ ss) u = rw (u.0, segments-path_option ss u.1) refl

-- Options that are no path add no segment.
segments-kept :
    (os more : List CoapOption)
    → segments (retain (λ o. not (is_path o)) os ++ more) ≡ segments more
unfolding segments retain
segments-kept [] more = refl
segments-kept (o ∷ os) more = elim (Bool-cases (is_path o)) [
  | inl e ↦ rw e (segments-kept os more)
  | inr e ↦ rw (e, e) (segments-kept os more)
]

trimmed-is_utf8 : (path : Bytes) → is_utf8 path ≡ true → is_utf8 (trimmed path) ≡ true
unfolding trimmed
trimmed-is_utf8 [] u = u
trimmed-is_utf8 (b ∷ bs) u = elim (Bool-cases (b == slash)) [
  | inr e ↦ rw e u
  | inl e ↦ rw e (after_slash 0x80 0xbf b bs e u)
]

-- The path as it is read back: it begins with a slash, and an empty one is none.
abbrev pub canonical : Bytes → Option Bytes
canonical path = if is_empty (trimmed path) then none else some (slash ∷ trimmed path)

abbrev others : List CoapOption → List CoapOption
others os = retain (λ o. not (is_path o)) os

others-map : (ss : List Bytes) → others (map path_option ss) ≡ []
unfolding retain
others-map [] = refl
others-map (s ∷ ss) = others-map ss

others-others : (os : List CoapOption) → others (others os) ≡ others os
others-others os = retain-eq_self (λ o. not (is_path o)) (others os) (All-retain_self _ os)

-- The kept options, with a path behind them, or none.
read_back :
    (os : List CoapOption) (ss : List Bytes)
    → All (λ s. is_utf8 s ≡ true) ss
    → (segments (others os ++ map path_option ss) ≡ ok ss)
      × (others (others os ++ map path_option ss) ≡ others os)
read_back os ss u = (
  segments-kept os (map path_option ss) ∙ segments-path_option ss u,
  retain-append _ (others os) (map path_option ss)
      ∙ rw (others-map ss) (append-nil _ ∙ others-others os),
)

split_some : (bs : Bytes) → is_empty (split bs) ≡ false
split_some bs = let (s, ss, e) = split-cons bs in rw e refl

pub uri_path-set_uri_path :
    (m : CoapMessage) (path : Bytes)
    → is_utf8 path ≡ true
    → (set_uri_path m path).1 ≡ ok tt
    → (uri_path (set_uri_path m path).0 ≡ ok (canonical path))
      × (retain (λ o. not (is_path o)) (set_uri_path m path).0.options
          ≡ retain (λ o. not (is_path o)) m.options)
unfolding set_uri_path uri_path
uri_path-set_uri_path m path u e = elim (Bool-cases (is_empty (trimmed path))) [
  | inl none_of ↦
      let alone : segments (others m.options) ≡ ok [] =
        subst (λ os. segments os ≡ ok []) (append-nil (others m.options))
          (read_back m.options [] tt).0 in
      rw none_of (rw alone refl, others-others m.options)
  | inr some_of ↦
      let parts = split (trimmed path) in
      let pushed : (push_segments parts (others m.options)).0
          ≡ others m.options ++ map path_option parts =
        push_segments-ok parts (others m.options) (rw some_of at e) in
      let (read, same) =
        read_back m.options parts (split-is_utf8 (trimmed path) (trimmed-is_utf8 path u)) in
      rw some_of (
        rw (pushed, read, split_some (trimmed path), join-split (trimmed path)) refl,
        rw pushed same,
      )
]

posted-ok :
    (p : CoapMessage × Result Error (Unit {0})) (m : CoapMessage)
    → posted p ≡ ok m
    → (p.1 ≡ ok tt) × (p.0 ≡ m)
unfolding posted
posted-ok (n, ok u) m h = (refl, cc)
posted-ok (n, err e) m h = absurd (cc)
posted-ok (n, stuck) m h = absurd (cc)

set_uri_path-payload :
    (m : CoapMessage) (path : Bytes) → (set_uri_path m path).0.payload ≡ m.payload
unfolding set_uri_path
set_uri_path-payload m path = ground arith

-- A request has the payload that it was given, and the path is the resource's.
pub post_request-payload :
    (ty : CoapType) (message_id : ℕ) (token path payload : Bytes) (m : CoapMessage)
    → is_utf8 path ≡ true
    → post_request ty message_id token path payload ≡ ok m
    → (m.payload ≡ payload) × (uri_path m ≡ ok (canonical path))
unfolding post_request
post_request-payload ty message_id token path payload m u h =
    let start : CoapMessage = record {
      ty = ty;
      code = post;
      message_id = message_id;
      token = token;
      options = [];
      payload = payload;
    } in
    let (accepted, same) = posted-ok (set_uri_path start path) m h in
    subst (λ (n : CoapMessage). (n.payload ≡ payload) × (uri_path n ≡ ok (canonical path))) same
      (set_uri_path-payload start path, (uri_path-set_uri_path start path u accepted).0)
