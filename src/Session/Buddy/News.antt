-- ===== src/Session/Buddy/News.antt =====
-- News of a session id reaches the buddies with that id, and no others.
use xfire.Prelude.{
  ℕ, ◌≡◌, ◌⊎◌, refl, sym, ap, ◌∙◌, Bool, true, false, ◌&&◌, List, [], ◌∷◌, ◌++◌, Option, none, some,
  length, le→leb, take, drop, if◌then◌else◌, All, IsByte, arith, inl, inr, Bool-cases,
}
use mathlib.Core.Path.{subst}
use xfire.Buffer.{Bytes}
use xfire.Buffer.Writes.{Writes-whole, read_at-append}
use xfire.Utils.{decode_string}
use xfire.Prelude.Int.{to_byte}
use xfire.Clib.{strtol_16}
use xfire.Utils.Hex.{read_back, hex_text, decode_string-Writes}
use xfire.Search.{same_bytes}
use xfire.Search.Find.{same_bytes_self, same_bytes→≡}
use xfire.Session.Buddy.{
  Buddy, Event, is_sid, check, xfire_check_buddy_im, play, xfire_check_buddy_game, deliver,
  change_status, xfire_check_buddy_status, for_each,
}

-- A buddy is known by a session id of 16 bytes, which is kept as hexadecimal text.
pub record KnownBy (id : Bytes) (b : Buddy) : Type 0 where
  pub text : b.sid ≡ some (hex_text id)
  pub size : length id ≡ 16
  pub bytes : All IsByte id

-- The id that a text stands for can be read from the text only.
hex_text_back :
    (id sid : Bytes) → All IsByte id → All IsByte sid → hex_text id ≡ hex_text sid → id ≡ sid
hex_text_back [] [] hi hs same = refl
hex_text_back [] (y ∷ sid) hi hs same = ground arith
hex_text_back (x ∷ id) [] hi hs same = ground arith
hex_text_back (x ∷ id) (y ∷ sid) (hx, hi) (hy, hs) same =
    ap (λ k. k ∷ id) first ∙ ap (◌∷◌ y) (hex_text_back id sid hi hs (ap (drop 2) same))
  where
    first : x ≡ y
    first = sym (read_back x hx) ∙ ap (λ t. to_byte (strtol_16 (take 2 t))) same ∙ read_back y hy

same_text :
    (id sid : Bytes)
    → All IsByte id
    → All IsByte sid
    → same_bytes id sid ≡ same_bytes (hex_text id) (hex_text sid)
same_text id sid hi hs = elim (Bool-cases (same_bytes (hex_text id) (hex_text sid))) [
  | inl same ↦
      let e = hex_text_back id sid hi hs (same_bytes→≡ _ _ same) in
      ap (λ k. same_bytes k sid) e ∙ same_bytes_self sid ∙ sym same
  | inr differs ↦ elim (Bool-cases (same_bytes id sid)) [
    | inl same ↦ absurd (
        clash (ap (λ k. same_bytes (hex_text k) (hex_text sid)) (same_bytes→≡ id sid same)) differs
          (same_bytes_self (hex_text sid)))
    | inr differs' ↦ differs' ∙ sym differs
  ]
]
  where
    clash : {a b : Bool} → a ≡ b → a ≡ false → b ≡ true → ⊥
    clash e f t = ground arith

is_sid-known :
    (temp id sid : Bytes)
    → length temp ≡ 16
    → length id ≡ 16
    → All IsByte id
    → is_sid temp (hex_text id) sid ≡ some (same_bytes id sid)
unfolding is_sid
is_sid-known temp id sid ht hi bytes =
    rw (decoded, read_at-append id (drop 16 temp) 16 hi, is_sid) refl
  where
    decoded : decode_string (hex_text id) temp ≡ some (tt, id ++ drop 16 temp)
    decoded =
        Writes-whole (decode_string-Writes id bytes) temp
        ∙ rw (hi, le→leb 16 (length temp) (omega arith)) refl

check-known :
    (temp id sid : Bytes) (act : Buddy → Buddy × List Event) (b : Buddy)
    → length temp ≡ 16
    → length id ≡ 16
    → All IsByte id
    → All IsByte sid
    → check temp sid act b (hex_text id)
      ≡ some (if same_bytes (hex_text id) (hex_text sid) then act b else (b, []))
unfolding check
check-known temp id sid act b ht hi bytes hs =
    rw (is_sid-known temp id sid ht hi bytes, same_text id sid bytes hs, check) refl

-- Whom a session id means: a buddy of ours who is online and known by that id.
abbrev pub is_target : Bytes → Buddy → Bool
is_target sid b =
    (b.is_ours && b.is_online)
    && (elim b.sid [ none ↦ false | some text ↦ same_bytes text (hex_text sid) ])

abbrev pub tell : Bytes → (Buddy → Buddy × List Event) → Buddy → Buddy × List Event
tell sid act b = if is_target sid b then act b else (b, [])

abbrev pub tell_all : Bytes → (Buddy → Buddy × List Event) → List Buddy → List Buddy × List Event
tell_all sid act [] = ([], [])
tell_all sid act (b ∷ bs) =
    let rest = tell_all sid act bs in ((tell sid act b).0 ∷ rest.0, (tell sid act b).1 ++ rest.1)

-- A buddy with a session id of 16 bytes, as hexadecimal text.
abbrev pub HasId : Buddy → Type 0
HasId b = (id : Bytes) × KnownBy id b

for_each-tell :
    (sid : Bytes) (f : Buddy → Option (Buddy × List Event)) (act : Buddy → Buddy × List Event)
    (bs : List Buddy)
    → All (λ b. f b ≡ some (tell sid act b)) bs
    → for_each f bs ≡ some (tell_all sid act bs)
unfolding for_each
for_each-tell sid f act [] h = refl
for_each-tell sid f act (b ∷ bs) (hb, h) = rw (hb, for_each-tell sid f act bs h, for_each) refl

guard :
    (ours same : Bool) (told kept : Buddy × List Event)
    → (if ours then some (if same then told else kept) else some kept)
      ≡ some (if ours && same then told else kept)
guard true same told kept = refl
guard false same told kept = refl

-- The three checks read the buddy's session id in the same way.
read_sid :
    (id sid : Bytes) (ours : Bool) (o : Option Bytes) (f : Bytes → Option (Buddy × List Event))
    (missing : Option (Buddy × List Event)) (told kept : Buddy × List Event)
    → o ≡ some (hex_text id)
    → f (hex_text id) ≡ some (if same_bytes (hex_text id) (hex_text sid) then told else kept)
    → (if ours then (elim o [ none ↦ missing | some text ↦ f text ]) else some kept)
      ≡ some (
          if ours && (elim o [ none ↦ false | some text ↦ same_bytes text (hex_text sid) ])
          then told
          else kept)
read_sid id sid ours o f missing told kept e h =
    subst
      (λ o.
        (if ours then (elim o [ none ↦ missing | some text ↦ f text ]) else some kept)
        ≡ some (
            if ours && (elim o [ none ↦ false | some text ↦ same_bytes text (hex_text sid) ])
            then told
            else kept))
      (sym e)
      (ap (λ k. if ours then k else some kept) h
        ∙ guard ours (same_bytes (hex_text id) (hex_text sid)) told kept)

no_sid :
    (sid : Bytes) (ours : Bool) (o : Option Bytes) (f : Bytes → Option (Buddy × List Event))
    (told kept : Buddy × List Event)
    → o ≡ none
    → (if ours then (elim o [ none ↦ some kept | some text ↦ f text ]) else some kept)
      ≡ some (
          if ours && (elim o [ none ↦ false | some text ↦ same_bytes text (hex_text sid) ])
          then told
          else kept)
no_sid sid ours o f told kept e =
    subst
      (λ o.
        (if ours then (elim o [ none ↦ some kept | some text ↦ f text ]) else some kept)
        ≡ some (
            if ours && (elim o [ none ↦ false | some text ↦ same_bytes text (hex_text sid) ])
            then told
            else kept))
      (sym e) (guard ours false told kept)

check_im-tell :
    (temp sid message : Bytes) (b : Buddy)
    → length temp ≡ 16
    → All IsByte sid
    → HasId b
    → xfire_check_buddy_im temp sid message b ≡ some (tell sid (deliver message) b)
unfolding xfire_check_buddy_im
check_im-tell temp sid message b ht hs (id, known) =
    read_sid id sid (b.is_ours && b.is_online) b.sid (check temp sid (deliver message) b) _
      ((deliver message) b) (b, []) known.text
      (check-known temp id sid (deliver message) b ht known.size known.bytes hs)

check_status-tell :
    (temp sid message : Bytes) (b : Buddy)
    → length temp ≡ 16
    → All IsByte sid
    → HasId b
    → xfire_check_buddy_status temp sid message b ≡ some (tell sid (change_status message) b)
unfolding xfire_check_buddy_status
check_status-tell temp sid message b ht hs (id, known) =
    read_sid id sid (b.is_ours && b.is_online) b.sid (check temp sid (change_status message) b) _
      ((change_status message) b) (b, []) known.text
      (check-known temp id sid (change_status message) b ht known.size known.bytes hs)

check_game-tell :
    (temp sid : Bytes) (game port : ℕ) (ip : Bytes) (b : Buddy)
    → length temp ≡ 16
    → All IsByte sid
    → (b.sid ≡ none) ⊎ HasId b
    → xfire_check_buddy_game temp sid game port ip b ≡ some (tell sid (play game port ip) b)
unfolding xfire_check_buddy_game
check_game-tell temp sid game port ip b ht hs (inl unknown) =
    no_sid sid (b.is_ours && b.is_online) b.sid (check temp sid (play game port ip) b)
      (play game port ip b) (b, []) unknown
check_game-tell temp sid game port ip b ht hs (inr (id, known)) =
    read_sid id sid (b.is_ours && b.is_online) b.sid (check temp sid (play game port ip) b) _
      ((play game port ip) b) (b, []) known.text
      (check-known temp id sid (play game port ip) b ht known.size known.bytes hs)

All-map : {P Q : Buddy → Type 0} (bs : List Buddy) → ((b : Buddy) → P b → Q b) → All P bs → All Q bs
All-map [] f h = tt
All-map (b ∷ bs) f (hb, h) = (f b hb, All-map bs f h)

-- For buddies who all have a session id of 16 bytes as text, an id of bytes that is looked for, and
-- a local array of 16 bytes: the message of a session goes to each of our online buddies with that
-- id, and changes nothing else.
pub check_buddy_im-tell_all :
    (temp sid message : Bytes) (bs : List Buddy)
    → length temp ≡ 16
    → All IsByte sid
    → All HasId bs
    → for_each (xfire_check_buddy_im temp sid message) bs ≡ some (tell_all sid (deliver message) bs)
check_buddy_im-tell_all temp sid message bs ht hs known =
    for_each-tell sid _ _ bs (All-map bs (λ b. check_im-tell temp sid message b ht hs) known)

-- For buddies who all have a session id of 16 bytes as text, an id of bytes that is looked for, and
-- a local array of 16 bytes: a new status is given to each of our online buddies with the session's
-- id, and nobody else changes.
pub check_buddy_status-tell_all :
    (temp sid message : Bytes) (bs : List Buddy)
    → length temp ≡ 16
    → All IsByte sid
    → All HasId bs
    → for_each (xfire_check_buddy_status temp sid message) bs
      ≡ some (tell_all sid (change_status message) bs)
check_buddy_status-tell_all temp sid message bs ht hs known =
    for_each-tell sid _ _ bs (All-map bs (λ b. check_status-tell temp sid message b ht hs) known)

-- For buddies who have a session id of 16 bytes as text or none, an id of bytes that is looked for,
-- and a local array of 16 bytes: a new game is given to each of our online buddies with the
-- session's id, and nobody else changes.
pub check_buddy_game-tell_all :
    (temp sid : Bytes) (game port : ℕ) (ip : Bytes) (bs : List Buddy)
    → length temp ≡ 16
    → All IsByte sid
    → All (λ b. (b.sid ≡ none) ⊎ HasId b) bs
    → for_each (xfire_check_buddy_game temp sid game port ip) bs
      ≡ some (tell_all sid (play game port ip) bs)
check_buddy_game-tell_all temp sid game port ip bs ht hs known =
    for_each-tell sid _ _ bs (All-map bs (λ b. check_game-tell temp sid game port ip b ht hs) known)
