-- ===== src/Create/Address.antt =====
-- gfire/src/x_create.c: addresses in dotted form. `g_strsplit` is GLib's, so it is a parameter.
pub mod Dotted
use xfire.Prelude.{
  ℕ, ◌+◌, ◌<◌, ◌≢◌, ◌≡◌, List, [], ◌∷◌, ◌++◌, map, Option, none, some, codes, length, replicate,
  get_elem?, ◌==◌, if◌then◌else◌, All,
}
use xfire.Prelude.Int.{to_byte}
use xfire.Buffer.{Bytes, write}
use xfire.Clib.{atoi}
use xfire.Create.{strlen}

-- A text joined of parts, with one byte between them.
abbrev pub joined : ℕ → Bytes → List Bytes → Bytes
joined d p [] = p
joined d p (q ∷ qs) = p ++ (d ∷ joined d q qs)

abbrev pub Lacks : ℕ → Bytes → Type 0
Lacks d = All (λ c. c ≢ d)

pub Lacks-append : (c : ℕ) (p q : Bytes) → Lacks c p → Lacks c q → Lacks c (p ++ q)
Lacks-append c [] q hp hq = hq
Lacks-append c (x ∷ p) q (hx, hp) hq = (hx, Lacks-append c p q hp hq)

-- What GLib promises of `g_strsplit(s, d, 0)`: a text that is not empty is split at each place
-- where the delimiter, here one byte, stands.
pub record SplitsBytes (strsplit : Bytes → Bytes → List Bytes) : Type 0 where
  pub splits :
      (d : ℕ) (p : Bytes) (ps : List Bytes)
      → joined d p ps ≢ []
      → All (Lacks d) (p ∷ ps)
      → strsplit (joined d p ps) (d ∷ []) ≡ p ∷ ps

pub record IpAddress : Type 0 where
  pub octet : Bytes
  pub ipstr : Bytes

-- `g_malloc` does not return NULL.
unfoldable pub xfire_new_ip_struct : IpAddress
xfire_new_ip_struct = record { octet = replicate 4 0; ipstr = replicate 16 0 }

-- `none` is a fault, here a text too long for `ipstr`; `some none` is NULL.
unfoldable pub xfire_ipaddr_init : (Bytes → Bytes → List Bytes) → Bytes → Option (Option IpAddress)
unfolding xfire_new_ip_struct
xfire_ipaddr_init strsplit ip =
    let ss = strsplit ip (codes ".") in
    let octet = map (λ s. to_byte (atoi s)) ss in
    let copied = write 0 (ip ++ 0 ∷ []) xfire_new_ip_struct.ipstr in
    if strlen ip == 0
    then some none
    else if length ss == 4
    then (elim copied [
      | none ↦ none
      | some (_, ipstr) ↦ some (some (record { octet = octet; ipstr = ipstr }))
    ])
    else some none
