-- ===== src/Session/GameNews/Lists.antt =====
-- The handler for games, from the lists that are read out of the packet on.
use xfire.Prelude.{
  ℕ, ◌+◌, ◌*◌, ◌/◌, ◌%◌, ◌≡◌, ◌≢◌, refl, sym, ◌∙◌, List, [], ◌∷◌, ◌++◌, none, some, codes, length,
  length-append, append_assoc, All, arith,
}
use xfire.Prelude.Int.{pos}
use xfire.Buffer.{Bytes}
use xfire.Utils.{xfire_hex_to_int_c}
use xfire.Search.{Listed, xfire_read_dynamic_attr}
use xfire.Session.Buddy.{Buddy}
use xfire.Session.GameNews.{GameLocals, number_at, xfire_game_status}
use xfire.Session.GameNews.Rows.{
  Row, IsRow, sid_rows, game_rows, ip_rows, port_rows, tell_rows, HasRows, IsKnown, read_at-behind,
  number_at-two, number_at-behind, game_rounds-tell_rows,
}

-- The rows `rs` stand in the arrays behind `s`, `g`, `p` and `q`, and more may stand behind them.
record Holds (rows : GameLocals) (i : ℕ) (rs : List Row) (s g p q : Bytes) : Type 0 where
  sid_rest : Bytes
  game_rest : Bytes
  ip_rest : Bytes
  port_rest : Bytes
  sid_size : length s ≡ i * 16
  game_size : length g ≡ i * 4
  ip_size : length p ≡ i * 4
  port_size : length q ≡ i * 4
  sid_is : rows.sid ≡ s ++ (sid_rows rs ++ sid_rest)
  game_is : rows.game ≡ g ++ (game_rows rs ++ game_rest)
  ip_is : rows.ip ≡ p ++ (ip_rows rs ++ ip_rest)
  port_is : rows.port ≡ q ++ (port_rows rs ++ port_rest)

some-none : {n : ℕ} → some n ≡ none → ⊥
some-none e = cc

Holds-HasRows :
    (rows : GameLocals) (i : ℕ) (rs : List Row) (s g p q : Bytes)
    → All IsRow rs
    → Holds rows i rs s g p q
    → HasRows rows i rs
Holds-HasRows rows i [] s g p q are_rows h = tt
Holds-HasRows rows i (r ∷ rs) s g p q (is_row, are_rows) h = (
  record {
    sid_at =
        rw (h.sid_is, append_assoc r.sid (sid_rows rs) h.sid_rest)
          (read_at-behind s r.sid (sid_rows rs ++ h.sid_rest) (i * 16) 16 h.sid_size
            is_row.sid_size);
    game_at = rw h.game_is (
        number_at-behind g (r.u ∷ r.v ∷ (game_rows rs ++ h.game_rest)) r.game (i * 4)
          is_row.game_small h.game_size);
    upper_at = upper;
    port_at = rw h.port_is (
        number_at-behind q (r.w ∷ r.x ∷ (port_rows rs ++ h.port_rest)) r.port (i * 4)
          is_row.port_small h.port_size);
    ip_at = rw h.ip_is (
        read_at-behind p (r.d ∷ r.c ∷ r.b ∷ r.a ∷ []) (ip_rows rs ++ h.ip_rest) (i * 4) 4 h.ip_size
          refl);
  },
  Holds-HasRows rows (i + 1) rs (s ++ r.sid) (g ++ game_row) (p ++ ip_row) (q ++ port_row) are_rows
      (record {
        sid_rest = h.sid_rest;
        game_rest = h.game_rest;
        ip_rest = h.ip_rest;
        port_rest = h.port_rest;
        sid_size = omega (arith, length-append s r.sid, h.sid_size, is_row.sid_size);
        game_size = omega (arith, length-append g game_row, h.game_size);
        ip_size = omega (arith, length-append p ip_row, h.ip_size);
        port_size = omega (arith, length-append q port_row, h.port_size);
        sid_is =
            h.sid_is
            ∙ rw
                (
                  append_assoc r.sid (sid_rows rs) h.sid_rest,
                  append_assoc s r.sid (sid_rows rs ++ h.sid_rest),
                )
                refl;
        game_is = h.game_is ∙ rw (append_assoc g game_row (game_rows rs ++ h.game_rest)) refl;
        ip_is = h.ip_is ∙ rw (append_assoc p ip_row (ip_rows rs ++ h.ip_rest)) refl;
        port_is = h.port_is ∙ rw (append_assoc q port_row (port_rows rs ++ h.port_rest)) refl;
      }),
)
  where
    game_row : Bytes
    game_row = r.game % 256 ∷ r.game / 256 ∷ r.u ∷ r.v ∷ []

    ip_row : Bytes
    ip_row = r.d ∷ r.c ∷ r.b ∷ r.a ∷ []

    port_row : Bytes
    port_row = r.port % 256 ∷ r.port / 256 ∷ r.w ∷ r.x ∷ []

    upper : number_at rows.game (i * 4 + 2) ≢ none
    upper e = some-none (sym two ∙ e)
      where
        two :
            number_at rows.game (i * 4 + 2)
            ≡ some (xfire_hex_to_int_c r.u + xfire_hex_to_int_c r.v * 256)
        two = rw h.game_is (
            rw
              (append_assoc g (r.game % 256 ∷ r.game / 256 ∷ [])
                (r.u ∷ r.v ∷ (game_rows rs ++ h.game_rest)))
              at
              (number_at-two (g ++ (r.game % 256 ∷ r.game / 256 ∷ [])) (game_rows rs ++ h.game_rest)
                r.u r.v (i * 4 + 2)
                (omega (arith, length-append g (r.game % 256 ∷ r.game / 256 ∷ []), h.game_size))))

-- For rows of 16 bytes for the session, a game and a port below 65536 and four octets, buddies who have
-- a session id of 16 bytes as text or none, and a local array of 16 bytes: where the four lists are
-- read from the packet, one behind the other, as the columns of these rows, the first with their
-- number, `xfire_game_status` gives each row's game, port and address in dotted form to our online
-- buddies with the row's session id, one row after the other, and changes nobody else.
pub game_status-tell_rows :
    (locals : GameLocals) (packet : Bytes) (len : ℕ) (rs : List Row) (bs : List Buddy)
    (sids games ips ports : Listed) (sid_rest game_rest ip_rest port_rest : Bytes)
    → length locals.temp ≡ 16
    → All IsRow rs
    → All IsKnown bs
    → xfire_read_dynamic_attr packet (pos len) (codes "sid") 16 0 locals.sid
      ≡ some (sids, sid_rows rs ++ sid_rest)
    → sids.number ≡ length rs
    → xfire_read_dynamic_attr packet (pos len) (codes "gameid") 4 sids.index locals.game
      ≡ some (games, game_rows rs ++ game_rest)
    → xfire_read_dynamic_attr packet (pos len) (codes "gip") 4 games.index locals.ip
      ≡ some (ips, ip_rows rs ++ ip_rest)
    → xfire_read_dynamic_attr packet (pos len) (codes "gport") 4 ips.index locals.port
      ≡ some (ports, port_rows rs ++ port_rest)
    → xfire_game_status locals packet len bs ≡ some (tell_rows rs bs)
unfolding xfire_game_status
game_status-tell_rows locals packet len rs bs sids games ips ports sid_rest game_rest ip_rest
      port_rest room are_rows known sid_read number game_read ip_read port_read =
    rw (sid_read, xfire_game_status) rw game_read rw ip_read rw port_read rw number
      (game_rounds-tell_rows filled 0 rs bs room are_rows
        (Holds-HasRows filled 0 rs [] [] [] [] are_rows (record {
          sid_rest = sid_rest;
          game_rest = game_rest;
          ip_rest = ip_rest;
          port_rest = port_rest;
          sid_size = refl;
          game_size = refl;
          ip_size = refl;
          port_size = refl;
          sid_is = refl;
          game_is = refl;
          ip_is = refl;
          port_is = refl;
        }))
        known)
  where
    filled : GameLocals
    filled = record {
      sid = sid_rows rs ++ sid_rest;
      game = game_rows rs ++ game_rest;
      ip = ip_rows rs ++ ip_rest;
      port = port_rows rs ++ port_rest;
      temp = locals.temp;
    }
