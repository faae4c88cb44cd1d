-- ===== src/Tests/GameNews.antt =====
-- The theorem on the handler for games at a concrete input.
use xfire.Prelude.{◌≡◌, inr, refl, [], ◌∷◌, some, codes, replicate, arith}
use xfire.Prelude.Int.{pos}
use xfire.Buffer.{Bytes}
use xfire.Utils.{xfire_hex_to_int_c, hex_sum}
use xfire.Tests.Session.{buddy, buddy-HasId}
use xfire.Prelude.{◌++◌}
use xfire.Session.GameNews.{GameLocals, xfire_game_status}
use xfire.Session.GameNews.Rows.{Row, IsRow, sid_rows, tell_rows, game_rows, ip_rows, port_rows}
use xfire.Session.GameNews.Lists.{game_status-tell_rows}
use xfire.Search.{
  same_bytes, xfire_read_dynamic_attr, find_string2, find_from, rounds_between, place_after,
  copy_rows,
}
use xfire.Buffer.{read_at, ◌>>=◌, ◌>>◌, pure, given, write}

-- One buddy plays the game 32 on a server.
abbrev row : Row
row = record {
  sid = replicate 16 9;
  game = 32;
  port = 27;
  a = 1;
  b = 2;
  c = 3;
  d = 4;
  u = 0;
  v = 0;
  w = 0;
  x = 0;
}

abbrev games_packet : Bytes
games_packet =
    codes "sid"
    ++ (4
        ∷ 3
        ∷ 1
        ∷ 0
        ∷ (replicate 16 9
            ++ (codes "gameid"
                ++ (4
                    ∷ 2
                    ∷ 1
                    ∷ 0
                    ∷ 32
                    ∷ 0
                    ∷ 0
                    ∷ 0
                    ∷ (codes "gip"
                        ++ (4
                            ∷ 2
                            ∷ 1
                            ∷ 0
                            ∷ 4
                            ∷ 3
                            ∷ 2
                            ∷ 1
                            ∷ (codes "gport" ++ (4 ∷ 2 ∷ 1 ∷ 0 ∷ 27 ∷ 0 ∷ 0 ∷ 0 ∷ []))))))))

abbrev game_arrays : GameLocals
game_arrays = record {
  sid = replicate 32 7;
  game = replicate 8 7;
  ip = replicate 8 7;
  port = replicate 8 7;
  temp = replicate 16 0;
}

sid_column :
    xfire_read_dynamic_attr games_packet (pos 61) (codes "sid") 16 0 game_arrays.sid
    ≡ some (record { index = 23; number = 1 }, sid_rows (row ∷ []) ++ replicate 16 7)
unfolding xfire_read_dynamic_attr find_string2 find_from rounds_between place_after copy_rows
    read_at same_bytes ◌>>=◌ ◌>>◌ pure given write xfire_hex_to_int_c hex_sum
sid_column = refl

game_column :
    xfire_read_dynamic_attr games_packet (pos 61) (codes "gameid") 4 23 game_arrays.game
    ≡ some (record { index = 37; number = 1 }, game_rows (row ∷ []) ++ replicate 4 7)
unfolding xfire_read_dynamic_attr find_string2 find_from rounds_between place_after copy_rows
    read_at same_bytes ◌>>=◌ ◌>>◌ pure given write xfire_hex_to_int_c hex_sum
game_column = refl

ip_column :
    xfire_read_dynamic_attr games_packet (pos 61) (codes "gip") 4 37 game_arrays.ip
    ≡ some (record { index = 48; number = 1 }, ip_rows (row ∷ []) ++ replicate 4 7)
unfolding xfire_read_dynamic_attr find_string2 find_from rounds_between place_after copy_rows
    read_at same_bytes ◌>>=◌ ◌>>◌ pure given write xfire_hex_to_int_c hex_sum
ip_column = refl

port_column :
    xfire_read_dynamic_attr games_packet (pos 61) (codes "gport") 4 48 game_arrays.port
    ≡ some (record { index = 61; number = 1 }, port_rows (row ∷ []) ++ replicate 4 7)
unfolding xfire_read_dynamic_attr find_string2 find_from rounds_between place_after copy_rows
    read_at same_bytes ◌>>=◌ ◌>>◌ pure given write xfire_hex_to_int_c hex_sum
port_column = refl

row-IsRow : IsRow row
row-IsRow = record {
  sid_size = refl;
  sid_bytes = omega arith;
  game_small = omega arith;
  port_small = omega arith;
  octets = omega arith;
}

game_status-tell_rows_example :
    xfire_game_status game_arrays games_packet 61 (buddy ∷ [])
    ≡ some (tell_rows (row ∷ []) (buddy ∷ []))
game_status-tell_rows_example =
    game_status-tell_rows game_arrays games_packet 61 (row ∷ []) (buddy ∷ [])
      (record { index = 23; number = 1 }) (record { index = 37; number = 1 })
      (record { index = 48; number = 1 }) (record { index = 61; number = 1 }) (replicate 16 7)
      (replicate 4 7) (replicate 4 7) (replicate 4 7) refl (row-IsRow, tt) (inr buddy-HasId, tt)
      sid_column refl game_column ip_column port_column
