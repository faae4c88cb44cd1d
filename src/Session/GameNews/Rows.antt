-- ===== src/Session/GameNews/Rows.antt =====
-- What the handler for games does with the rows of its four lists.
use xfire.Prelude.{
  ℕ, zero, suc, ◌+◌, ◌*◌, ◌/◌, ◌%◌, ◌<◌, ◌≡◌, ◌≢◌, ◌⊎◌, inl, inr, Bool-cases, Option-cases, refl,
  ap, ◌∙◌, List, [], ◌∷◌, ◌++◌, none, some, length, drop-append, take-length_append, get_elem?,
  le→leb, length-append, append_assoc, All, IsByte, arith,
}
use xfire.Buffer.{Bytes, read_at}
use xfire.Partial.{◌>>=◌}
use xfire.Create.Address.Dotted.{dotted}
use xfire.Utils.{xfire_hex_to_int_c}
use xfire.Search.Read.{xfire_hex_to_int_c_lem}
use xfire.Session.Buddy.{Buddy, Event, play, set_game}
use xfire.Session.Buddy.News.{HasId, tell, is_target, tell_all, check_buddy_game-tell_all}
use xfire.Session.GameNews.{GameLocals, number_at, ip_text, game_round, game_rounds}

-- A row of the packet: who plays what on which server; the bytes `u` to `x` have no meaning.
pub record Row : Type 0 where
  pub sid : Bytes
  pub game : ℕ
  pub port : ℕ
  pub a : ℕ
  pub b : ℕ
  pub c : ℕ
  pub d : ℕ
  pub u : ℕ
  pub v : ℕ
  pub w : ℕ
  pub x : ℕ

pub record IsRow (r : Row) : Type 0 where
  pub sid_size : length r.sid ≡ 16
  pub sid_bytes : All IsByte r.sid
  pub game_small : r.game < 65536
  pub port_small : r.port < 65536
  pub octets : All IsByte (r.a ∷ r.b ∷ r.c ∷ r.d ∷ [])

-- The rows of the four lists, one behind the other.
abbrev pub sid_rows : List Row → Bytes
sid_rows [] = []
sid_rows (r ∷ rs) = r.sid ++ sid_rows rs

abbrev pub game_rows : List Row → Bytes
game_rows [] = []
game_rows (r ∷ rs) = r.game % 256 ∷ r.game / 256 ∷ r.u ∷ r.v ∷ game_rows rs

abbrev pub ip_rows : List Row → Bytes
ip_rows [] = []
ip_rows (r ∷ rs) = r.d ∷ r.c ∷ r.b ∷ r.a ∷ ip_rows rs

abbrev pub port_rows : List Row → Bytes
port_rows [] = []
port_rows (r ∷ rs) = r.port % 256 ∷ r.port / 256 ∷ r.w ∷ r.x ∷ port_rows rs

abbrev pub server : Row → Bytes
server r = dotted r.a r.b r.c r.d

-- Each row is told to the buddies, one row after the other.
abbrev pub tell_rows : List Row → List Buddy → List Buddy × List Event
tell_rows [] bs = (bs, [])
tell_rows (r ∷ rs) bs =
    let now = tell_all r.sid (play r.game r.port (server r)) bs in
    let later = tell_rows rs now.0 in (later.0, now.1 ++ later.1)

pub read_at-behind :
    (before row rest : Bytes) (k n : ℕ)
    → length before ≡ k
    → length row ≡ n
    → read_at (before ++ (row ++ rest)) k n ≡ some row
unfolding read_at
read_at-behind before row rest k n hk hn =
    rw (← hk, ← hn) rw
      (
        le→leb (length before + length row) (length (before ++ (row ++ rest)))
            (omega (arith, length-append before (row ++ rest), length-append row rest)),
        drop-append before (row ++ rest),
        take-length_append row rest,
      )
      refl

pub elem-behind :
    (before rest : Bytes) (c k : ℕ)
    → length before ≡ k
    → get_elem? (before ++ (c ∷ rest)) k ≡ some c
elem-behind [] rest c zero h = refl
elem-behind [] rest c (suc k) h = absurd (omega arith)
elem-behind (x ∷ before) rest c zero h = absurd (omega arith)
elem-behind (x ∷ before) rest c (suc k) h = elem-behind before rest c k (omega arith)

pub number_at-two :
    (before rest : Bytes) (low high k : ℕ)
    → length before ≡ k
    → number_at (before ++ (low ∷ high ∷ rest)) k
      ≡ some (xfire_hex_to_int_c low + xfire_hex_to_int_c high * 256)
unfolding number_at ◌>>=◌
number_at-two before rest low high k h =
    rw (elem-behind before (high ∷ rest) low k h, next, number_at, ◌>>=◌) refl
  where
    next : get_elem? (before ++ (low ∷ high ∷ rest)) (k + 1) ≡ some high
    next = rw (append_assoc before (low ∷ []) (high ∷ rest)) at (
        elem-behind (before ++ (low ∷ [])) rest high (k + 1)
          (omega (arith, length-append before (low ∷ []))))

pub number_at-behind :
    (before rest : Bytes) (n k : ℕ)
    → n < 65536
    → length before ≡ k
    → number_at (before ++ (n % 256 ∷ n / 256 ∷ rest)) k ≡ some n
number_at-behind before rest n k small h =
    number_at-two before rest (n % 256) (n / 256) k h
    ∙ rw
        (
          xfire_hex_to_int_c_lem (n % 256) (omega arith),
          xfire_hex_to_int_c_lem (n / 256) (omega arith),
        )
        (ap some (omega arith))

-- The arrays have the row at place `i`.
pub record HasRow (rows : GameLocals) (i : ℕ) (r : Row) : Type 0 where
  pub sid_at : read_at rows.sid (i * 16) 16 ≡ some r.sid
  pub game_at : number_at rows.game (i * 4) ≡ some r.game
  pub upper_at : number_at rows.game (i * 4 + 2) ≢ none
  pub port_at : number_at rows.port (i * 4) ≡ some r.port
  pub ip_at : read_at rows.ip (i * 4) 4 ≡ some (r.d ∷ r.c ∷ r.b ∷ r.a ∷ [])

abbrev pub HasRows : GameLocals → ℕ → List Row → Type 0
HasRows rows i [] = Unit
HasRows rows i (r ∷ rs) = HasRow rows i r × HasRows rows (i + 1) rs

abbrev pub IsKnown : Buddy → Type 0
IsKnown b = (b.sid ≡ none) ⊎ HasId b

play-IsKnown :
    (game port : ℕ) (ip : Bytes) (b : Buddy) → IsKnown b → IsKnown (play game port ip b).0
unfolding play set_game
play-IsKnown game port ip b (inl missing) = inl missing
play-IsKnown game port ip b (inr (id, known)) =
    inr (id, record { text = known.text; size = known.size; bytes = known.bytes })

tell_all-IsKnown :
    (sid : Bytes) (game port : ℕ) (ip : Bytes) (bs : List Buddy)
    → All IsKnown bs
    → All IsKnown (tell_all sid (play game port ip) bs).0
tell_all-IsKnown sid game port ip [] h = tt
tell_all-IsKnown sid game port ip (b ∷ bs) (known, h) =
    (told, tell_all-IsKnown sid game port ip bs h)
  where
    told : IsKnown (tell sid (play game port ip) b).0
    told = elim (Bool-cases (is_target sid b)) [
      | inl e ↦ rw e (play-IsKnown game port ip b known)
      | inr e ↦ rw e known
    ]

ip_text-server : (r : Row) → IsRow r → ip_text (r.d ∷ r.c ∷ r.b ∷ r.a ∷ []) ≡ server r
unfolding ip_text
ip_text-server r h =
    let (ha, (hb, (hc, (hd, _)))) = h.octets in
    rw
      (
        xfire_hex_to_int_c_lem r.a ha,
        xfire_hex_to_int_c_lem r.b hb,
        xfire_hex_to_int_c_lem r.c hc,
        xfire_hex_to_int_c_lem r.d hd,
      )
      refl

game_round-tell_all :
    (rows : GameLocals) (i : ℕ) (r : Row) (bs : List Buddy)
    → length rows.temp ≡ 16
    → IsRow r
    → HasRow rows i r
    → All IsKnown bs
    → game_round rows i bs ≡ some (tell_all r.sid (play r.game r.port (server r)) bs)
unfolding game_round
game_round-tell_all rows i r bs room is_row h known =
    elim (Option-cases (number_at rows.game (i * 4 + 2))) [
      | inl missing ↦ absurd (h.upper_at missing)
      | inr (upper, e) ↦
          rw
            (h.sid_at, h.game_at, e, h.port_at, h.ip_at, ip_text-server r is_row, game_round, ◌>>=◌)
            (check_buddy_game-tell_all rows.temp r.sid r.game r.port (server r) bs room
              is_row.sid_bytes known)
    ]

pub game_rounds-tell_rows :
    (rows : GameLocals) (i : ℕ) (rs : List Row) (bs : List Buddy)
    → length rows.temp ≡ 16
    → All IsRow rs
    → HasRows rows i rs
    → All IsKnown bs
    → game_rounds rows (length rs) i bs ≡ some (tell_rows rs bs)
unfolding game_rounds
game_rounds-tell_rows rows i [] bs room are_rows h known = refl
game_rounds-tell_rows rows i (r ∷ rs) bs room (is_row, are_rows) (here, h) known =
    rw (game_round-tell_all rows i r bs room is_row here known, game_rounds) rw
      (game_rounds-tell_rows rows (i + 1) rs (tell_all r.sid (play r.game r.port (server r)) bs).0
        room are_rows h (tell_all-IsKnown r.sid r.game r.port (server r) bs known))
      refl
