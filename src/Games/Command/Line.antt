-- ===== src/Games/Command/Line.antt =====
-- The command line for the elements that gfire/src/x_launch.xml has for its games.
use xfire.Prelude.{
  ℕ, zero, suc, ◌%◌, ◌≡◌, ◌≢◌, refl, ap, ◌∙◌, Bool-cases, inl, inr, [], ◌∷◌, ◌++◌, Option, none,
  some, codes, arith, Bool, true, false, not, ◌&&◌, ◌==◌, append-nil, append_assoc, length, take,
  ltb,
}
use xfire.Prelude.Int.{pos}
use xfire.Buffer.{Bytes}
use xfire.Clib.{format_d, digits, hex_digit}
use xfire.Create.Address.{Lacks, Lacks-append}
use xfire.Glib.{Glib, Free, Splits}
use xfire.Games.Info.{Linfo}
use xfire.Games.Command.{xfire_launch_parse, command_arguments, xfire_linfo_get_cmd}
use xfire.Games.Command.Substitution.{launch_parse-once}

starts : {x c : ℕ} {xs cs : Bytes} → x ∷ xs ≡ c ∷ cs → x ≡ c
starts {x} e = ap first e
  where
    first : Bytes → ℕ
    first [] = x
    first (y ∷ ys) = y

-- No delimiter begins where its first byte does not stand.
Lacks-Free : (c : ℕ) (d p tail : Bytes) → Lacks c p → Free (c ∷ d) p tail
Lacks-Free c d [] tail h = tt
Lacks-Free c d (x ∷ p) tail (hx, h) = (λ e. hx (starts e), Lacks-Free c d p tail h)

digits-Lacks : (places n : ℕ) → Lacks b'@' (digits places 10 n)
unfolding digits hex_digit
digits-Lacks zero n = tt
digits-Lacks (suc places) n = elim (Bool-cases (ltb n 10)) [
  | inl small ↦ rw small (λ e. ground arith, tt)
  | inr large ↦ rw large (
      Lacks-append b'@' _ (hex_digit (n % 10) ∷ []) (digits-Lacks places _) (λ e. ground arith, tt))
]

-- Whether a text begins with another one, and whether it does so at no place of `p`.
abbrev begins : Bytes → Bytes → Bool
begins [] s = true
begins (c ∷ d) [] = false
begins (c ∷ d) (x ∷ s) = x == c && begins d s

abbrev is_free : Bytes → Bytes → Bytes → Bool
is_free d [] tail = true
is_free d (c ∷ p) tail = not (begins d (c ∷ (p ++ tail))) && is_free d p tail

begins-take : (d s : Bytes) → take (length d) s ≡ d → begins d s ≡ true
begins-take [] s e = refl
begins-take (c ∷ d) [] e = cc
begins-take (c ∷ d) (x ∷ s) e = ground (arith, begins-take d s)

is_free-Free : (d p tail : Bytes) → is_free d p tail ≡ true → Free d p tail
is_free-Free d [] tail h = tt
is_free-Free d (c ∷ p) tail h =
    (λ e. ground (arith, begins-take d (c ∷ (p ++ tail)) e), is_free-Free d p tail (ground arith))

abbrev pub address : Bytes → Bytes → Bytes
address ip port = codes "+connect " ++ (ip ++ (b':' ∷ port))

module _ {g : Glib} (laws : Splits g) where
  replaced :
      (d p q replacement src : Bytes)
      → src ≡ p ++ (d ++ q)
      → d ≢ []
      → Free d p (d ++ q)
      → Free d q []
      → xfire_launch_parse g (some src) (some replacement) d ≡ p ++ (replacement ++ q)
  replaced d p q replacement src e some_text before after =
      rw e (launch_parse-once d p q replacement laws some_text before after)

  launch_parse-null : (src : Option Bytes) (d : Bytes) → xfire_launch_parse g src none d ≡ []
  unfolding xfire_launch_parse
  launch_parse-null none d = refl
  launch_parse-null (some src) d = refl

  connect_lem :
      (ip port : Bytes)
      → Lacks b'@' ip
      → xfire_launch_parse g
          (some
            (xfire_launch_parse g (some (codes "+connect @ip@:@port@")) (some ip) (codes "@ip@")))
          (some port)
          (codes "@port@")
        ≡ address ip port
  connect_lem ip port lacks =
      rw
        (replaced (codes "@ip@") (codes "+connect ") (codes ":@port@") ip _ refl (λ e. cc)
          (is_free-Free (codes "@ip@") (codes "+connect ") (codes "@ip@:@port@") refl)
          (is_free-Free (codes "@ip@") (codes ":@port@") [] refl))
        (replaced (codes "@port@") (codes "+connect " ++ (ip ++ codes ":")) [] port _
            (rw (append_assoc ip (codes ":") (codes "@port@")) refl) (λ e. cc)
            (Lacks-Free b'@' (codes "port@") (codes "+connect " ++ (ip ++ codes ":"))
              (codes "@port@")
              (Lacks-append b'@' (codes "+connect ") (ip ++ codes ":") (omega arith)
                (Lacks-append b'@' ip (codes ":") lacks (omega arith))))
            tt
          ∙ rw (append-nil port, append_assoc ip (codes ":") port) refl)

  launch_lem :
      (ip port options : Bytes)
      → Lacks b'@' ip
      → Lacks b'@' port
      → xfire_launch_parse g
          (some (
            xfire_launch_parse g
              (some (
                xfire_launch_parse g
                  (some (codes "@options@ @gamemod@ @connect@"))
                  (some (address ip port))
                  (codes "@connect@")))
              (some [])
              (codes "@gamemod@")))
          (some options)
          (codes "@options@")
        ≡ options ++ (codes "  " ++ address ip port)
  launch_lem ip port options lacks_ip lacks_port =
      rw
        (
          replaced (codes "@connect@") (codes "@options@ @gamemod@ ") [] (address ip port) _ refl
              (λ e. cc)
              (is_free-Free (codes "@connect@") (codes "@options@ @gamemod@ ") (codes "@connect@")
                refl)
              tt,
          append-nil (ip ++ (b':' ∷ port)),
          replaced (codes "@gamemod@") (codes "@options@ ") (codes " " ++ address ip port) [] _ refl
              (λ e. cc)
              (is_free-Free (codes "@gamemod@") (codes "@options@ ")
                (codes "@gamemod@ " ++ address ip port) refl)
              (Lacks-Free b'@' (codes "gamemod@") (codes " " ++ address ip port) [] lacks),
        )
        (replaced (codes "@options@") [] (codes "  " ++ address ip port) options _ refl (λ e. cc) tt
          (Lacks-Free b'@' (codes "options@") (codes "  " ++ address ip port) []
            (omega arith, lacks)))
    where
      lacks : Lacks b'@' (codes " " ++ address ip port)
      lacks =
          Lacks-append b'@' (codes " +connect ") (ip ++ (b':' ∷ port)) (omega arith)
            (Lacks-append b'@' ip (b':' ∷ port) lacks_ip (omega arith, lacks_port))

-- With the `launch` and `connect` elements that gfire/src/x_launch.xml has for its games, and an
-- `options` element, the command that joins a server is the program, a blank, and, stripped, the
-- options and `+connect` with the server's address and port, for every address without `@`, and
-- whatever the options and the `gamemod` element are.
pub get_cmd-address :
    {g : Glib} (l : Linfo) (bin options ip : Bytes) (port : ℕ)
    → Splits g
    → l.c_bin ≡ some bin
    → l.c_options ≡ some options
    → l.c_connect ≡ some (codes "+connect @ip@:@port@")
    → l.c_cmd ≡ some (codes "@options@ @gamemod@ @connect@")
    → Lacks b'@' ip
    → xfire_linfo_get_cmd g l (some ip) (pos port) none
      ≡ some
          (bin ++ (b' ' ∷ g.strstrip (options ++ (codes "  " ++ address ip (format_d (pos port))))))
unfolding xfire_linfo_get_cmd command_arguments format_d
get_cmd-address l bin options ip port laws program opts connect launch lacks =
    rw
      (
        program,
        opts,
        connect,
        launch,
        command_arguments,
        launch_parse-null laws l.c_gmod (codes "@mod@"),
        connect_lem laws ip (format_d (pos port)) lacks,
        launch_lem laws ip (format_d (pos port)) options lacks (digits-Lacks 10 port),
      )
      refl
