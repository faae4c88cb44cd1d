-- ===== src/Session/GameNews.antt =====
-- The handler of the packet that says which games the buddies play (`xfire_game_status` of
-- gfire/src/xfire.c). `none` as a result is a fault.
pub mod Rows
pub mod Lists
use xfire.Prelude.{
  ℕ, zero, suc, ◌+◌, ◌*◌, List, [], ◌∷◌, ◌++◌, Option, none, some, codes, get_elem?,
}
use xfire.Prelude.Int.{pos}
use xfire.Buffer.{Bytes, read_at}
use xfire.Clib.{format_d}
use xfire.Utils.{xfire_hex_to_int_c}
use xfire.Partial.{◌>>=◌}
use xfire.Search.{Listed, xfire_read_dynamic_attr}
use xfire.Session.Buddy.{Buddy, Event, for_each, xfire_check_buddy_game}

-- The local arrays for 300 rows of 16 and 4 bytes, and `temp` of the check over the buddies.
pub record GameLocals : Type 0 where
  pub sid : Bytes
  pub game : Bytes
  pub ip : Bytes
  pub port : Bytes
  pub temp : Bytes

-- `xfire_hex_to_intC(rows[k])+(xfire_hex_to_intC(rows[k+1])*256)`
unfoldable pub number_at : Bytes → ℕ → Option ℕ
unfolding ◌>>=◌
number_at rows k = get_elem? rows k >>= λ low.
    get_elem? rows (k + 1) >>= λ high. some (xfire_hex_to_int_c low + xfire_hex_to_int_c high * 256)

-- `%d.%d.%d.%d`, for the four bytes from the last one on.
unfoldable pub ip_text : Bytes → Bytes
unfolding format_d
ip_text (d ∷ c ∷ b ∷ a ∷ rest) =
    format_d (pos (xfire_hex_to_int_c a))
    ++ (b'.' ∷ format_d (pos (xfire_hex_to_int_c b))
        ++ (b'.' ∷ format_d (pos (xfire_hex_to_int_c c))
            ++ (b'.' ∷ format_d (pos (xfire_hex_to_int_c d)))))
ip_text rest = []

-- One round of the loop. The upper half of a game's number is read into `game2`, which nothing uses.
unfoldable pub game_round : GameLocals → ℕ → List Buddy → Option (List Buddy × List Event)
unfolding number_at ip_text ◌>>=◌
game_round rows i buddies = read_at rows.sid (i * 16) 16 >>= λ sid.
    number_at rows.game (i * 4) >>= λ game. number_at rows.game (i * 4 + 2) >>= λ game2.
    number_at rows.port (i * 4) >>= λ port. read_at rows.ip (i * 4) 4 >>= λ ip.
    for_each (xfire_check_buddy_game rows.temp sid game port (ip_text ip)) buddies

-- The rounds that are left, from row `i` on.
unfoldable pub game_rounds : GameLocals → ℕ → ℕ → List Buddy → Option (List Buddy × List Event)
unfolding game_round
game_rounds rows zero i buddies = some (buddies, [])
game_rounds rows (suc n) i buddies = elim (game_round rows i buddies) [
  | none ↦ none
  | some (buddies, events) ↦ elim (game_rounds rows n (i + 1) buddies) [
    | none ↦ none
    | some (buddies, more) ↦ some (buddies, events ++ more)
  ]
]

-- The number of session ids counts.
unfoldable pub xfire_game_status :
    GameLocals → Bytes → ℕ → List Buddy → Option (List Buddy × List Event)
unfolding game_rounds
xfire_game_status locals packet len buddies =
    elim (xfire_read_dynamic_attr packet (pos len) (codes "sid") 16 0 locals.sid) [
      | none ↦ none
      | some (listed, sid) ↦
          elim (xfire_read_dynamic_attr packet (pos len) (codes "gameid") 4 listed.index
            locals.game) [
              | none ↦ none
              | some (games, game) ↦
                  elim (xfire_read_dynamic_attr packet (pos len) (codes "gip") 4 games.index
                    locals.ip) [
                      | none ↦ none
                      | some (ips, ip) ↦
                          elim (xfire_read_dynamic_attr packet (pos len) (codes "gport") 4 ips.index
                            locals.port) [
                              | none ↦ none
                              | some (ports, port) ↦
                                  game_rounds
                                    (record {
                                      sid = sid;
                                      game = game;
                                      ip = ip;
                                      port = port;
                                      temp = locals.temp;
                                    })
                                    listed.number 0 buddies
                            ]
                    ]
            ]
    ]
