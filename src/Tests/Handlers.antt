-- ===== src/Tests/Handlers.antt =====
-- The theorems on the handlers, the connection and the menus at concrete inputs.
use xfire.Prelude.{
  ℕ, ◌≡◌, refl, ◌++◌, false, true, List, [], ◌∷◌, none, some, codes, replicate, All, arith,
}
use xfire.Prelude.Int.{ℤ, pos}
use xfire.Buffer.{Bytes, read_at, given, write, ◌>>=◌, ◌>>◌}
use xfire.Wire.{encode}
use xfire.Packets.Buddies.Format.{new_buddy_packet}
use xfire.Games.Document.{live}
use xfire.Games.Names.{xfire_game_name}
use xfire.Games.Info.{Linfo, xfire_linfo_get}
use xfire.Session.Buddy.{Buddy}
use xfire.Session.Xqf.{Flags}
use xfire.Session.Contacts.{xfire_new_buddy}
use xfire.Session.Contacts.Bounds.{new_buddy-bounds}
use xfire.Session.Connection.{Plugin, present, xfire_close, xfire_login}
use xfire.Session.Connection.Life.{close-login}
use xfire.Session.Join.{Shell}
use xfire.Session.Roster.{Blist, ListLocals, xfire_read_buddy_online}
use xfire.Session.Roster.Overrun.{read_buddy_online-overrun}
use xfire.Session.Dispatch.{Gaim, Arrays, switch}
use xfire.Session.Dispatch.Quiet.{IsSilent, switch-IsSilent}
use xfire.Session.Dispatch.Stream.{
  Arrival, at_once, in_parts, AreThose, IsFramed, run, deliver, run-deliver,
}
use xfire.Tests.Games.{xml}
use xfire.Tests.Session.{
  idle, idle-IsIdle, allocated, length-allocated, ten_header, ten_header_length, buddy,
}
use xfire.Search.{find_string2, xfire_read_dynamic_attr}
use xfire.Utils.{to_string, xfire_hex_to_int_c}
use xfire.Utils.Hex.{hex_text}

new_buddy-bounds_example :
    xfire_new_buddy (replicate 512 0) (replicate 26 0) (codes "me")
    ≡ some (encode (new_buddy_packet (codes "me")))
new_buddy-bounds_example =
    new_buddy-bounds (replicate 512 0) (replicate 26 0) (codes "me") refl refl

abbrev plugin : Plugin ℕ
plugin = record { proto_data = present; games = live 0; linfo = live 0; has_gc = true }

close-login_example :
    (q : Plugin ℕ) × (xfire_close plugin ≡ some q)
    × (xfire_close q ≡ none)
    × ((bound : ℕ) (game : ℤ) (buffer : Bytes)
        → xfire_game_name xml bound
            (xfire_login (λ text. none) true none (some []) q).1.games
            game
            buffer
          ≡ none)
    × ((bound : ℕ) (game : ℤ)
        → xfire_linfo_get xml bound (xfire_login (λ text. none) true none (some []) q).1.linfo game
          ≡ none)
close-login_example =
    close-login xml plugin 0 0 (λ text. none) none (some []) refl refl refl tt refl

abbrev shell : Shell
shell = record { parse_argv = λ command. some (command ∷ []); spawn = λ dir argv. true }

-- A buddy who plays the first game.
abbrev player : Buddy
player = record buddy {
  username = some (codes "friend");
  game = 5;
  port = 27;
  ip = some (codes "1.2.3.4");
}

abbrev at_rest : Flags
at_rest = record { ingame = false; found = false }

-- What the document says of the first game.
abbrev quake : Linfo
quake = record {
  gameid = pos 5;
  name = some (codes "Quake");
  xqfname = some (codes "Q3S");
  xqfmods = some (codes "baseq3,arena");
  c_bin = some (codes "quake");
  c_wdir = none;
  c_gmod = none;
  c_connect = some (codes "+connect @ip@:@port@");
  c_options = some (codes "-w");
  c_cmd = some (codes "@options@ @gamemod@ @connect@");
}

abbrev command : Bytes
command = codes "quake -w  +connect 1.2.3.4:27"

abbrev lists : ListLocals
lists = record {
  friends = [];
  nicks = [];
  ids = replicate 16 0;
  sids = replicate 64 0;
  userid = replicate 5 0;
  string_sid = replicate 33 0;
  temp = replicate 2 0;
  stack = [];
}

abbrev blist : Blist
blist = record {
  find_buddy = λ bs name. none;
  buddy_new = λ id nick. record buddy { name = id; alias = some nick };
  add_buddy = λ b bs. b ∷ bs;
}

-- A packet with one user id and one session id.
abbrev one_online : Bytes
one_online =
    (6 ∷ codes "userid")
    ++ (4 ∷ 2 ∷ 1 ∷ 0 ∷ 5 ∷ 6 ∷ 7 ∷ 8 ∷ (3 ∷ codes "sid"))
    ++ (4 ∷ 3 ∷ 1 ∷ 0 ∷ replicate 16 9)

one_userid :
    xfire_read_dynamic_attr one_online (pos 39) (codes "userid") 4 0 lists.ids
    ≡ some (record { index = 15; number = 1 }, 5 ∷ 6 ∷ 7 ∷ 8 ∷ replicate 12 0)
unfolding xfire_read_dynamic_attr ◌>>=◌ given find_string2 xfire_hex_to_int_c ◌>>◌ write
one_userid = refl

one_sid :
    xfire_read_dynamic_attr one_online (pos 39) (codes "sid") 16 0 lists.sids
    ≡ some (record { index = 39; number = 1 }, replicate 16 9 ++ replicate 48 0)
unfolding xfire_read_dynamic_attr ◌>>=◌ given find_string2 xfire_hex_to_int_c ◌>>◌ write
one_sid = refl

first_id : read_at (5 ∷ 6 ∷ 7 ∷ 8 ∷ replicate 12 0) 0 4 ≡ some (5 ∷ 6 ∷ 7 ∷ 8 ∷ [])
unfolding read_at
first_id = refl

read_buddy_online-overrun_example :
    (to_string (replicate 2 0) (5 ∷ 6 ∷ 7 ∷ 8 ∷ []) 4 (replicate 5 0) ≡ none)
    × (to_string (replicate 2 0) (5 ∷ 6 ∷ 7 ∷ 8 ∷ []) 4 (replicate 9 0)
        ≡ some (tt, hex_text (5 ∷ 6 ∷ 7 ∷ 8 ∷ []) ++ 0 ∷ []))
    × (xfire_read_buddy_online blist lists one_online 39 (buddy ∷ []) ≡ none)
read_buddy_online-overrun_example =
    read_buddy_online-overrun blist lists one_online (5 ∷ 6 ∷ 7 ∷ 8 ∷ replicate 12 0)
      (replicate 16 9 ++ replicate 48 0) (5 ∷ 6 ∷ 7 ∷ 8 ∷ []) (replicate 9 0) 39 0
      (record { index = 15; number = 1 }) (record { index = 39; number = 1 }) (buddy ∷ []) refl refl
      refl (omega arith) one_userid one_sid refl first_id

abbrev gaim : Gaim
gaim = record {
  sha1 = λ text. replicate 20 0;
  password = codes "secret";
  username = codes "me";
  alias = none;
  blist = blist;
}

abbrev arrays : Arrays
arrays = record {
  auth = record { hex = replicate 2 0; sha_local = replicate 40 0; sha_string = replicate 81 0 };
  salt_temp = replicate 41 0;
  handler = record {
    sid = replicate 16 0;
    msgtype = replicate 4 0;
    status = replicate 2 0;
    temp = replicate 16 0;
  };
  text = replicate 200 0;
  lists = lists;
  games = record { sid = []; game = []; ip = []; port = []; temp = replicate 16 0 };
  name = replicate 26 0;
  nick = replicate 50 0;
  alias_buffer = replicate 1024 0;
}

switch-IsSilent_example :
    IsSilent (switch gaim arrays (replicate 1024 0) 142 (replicate 64 0) 40 (buddy ∷ []))
switch-IsSilent_example =
    switch-IsSilent gaim arrays (replicate 1024 0) 142 (replicate 64 0) 40 (buddy ∷ []) refl

-- A packet of ten bytes in three parts, and one that comes at once.
abbrev two_packets : List Arrival
two_packets =
    in_parts ten_header (1 ∷ []) ((2 ∷ []) ∷ []) (3 ∷ 4 ∷ 5 ∷ [])
    ∷ at_once ten_header (1 ∷ 2 ∷ 3 ∷ 4 ∷ 5 ∷ [])
    ∷ []

two_packets-IsFramed : All IsFramed two_packets
two_packets-IsFramed = (
  record {
    header_size = refl;
    counts = ten_header_length;
    small = omega (arith, ten_header_length);
    ends = omega arith;
  },
  (
    record {
      header_size = refl;
      counts = ten_header_length;
      small = omega (arith, ten_header_length);
      ends = tt;
    },
    tt,
  ),
)

run-deliver_example :
    (ps : List (Bytes × Bytes)) × AreThose two_packets ps
    × (run gaim arrays (replicate 1024 0) allocated allocated idle two_packets (buddy ∷ [])
        ≡ deliver gaim arrays (replicate 1024 0) ps (buddy ∷ []))
    × (run gaim arrays
          (replicate 1024 0)
          allocated
          allocated
          idle
          (two_packets ++ (at_once (10 ∷ 0 ∷ []) [] ∷ two_packets))
          (buddy ∷ [])
        ≡ deliver gaim arrays (replicate 1024 0) ps (buddy ∷ []))
run-deliver_example =
    run-deliver gaim arrays (replicate 1024 0) allocated allocated idle two_packets two_packets
      (10 ∷ 0 ∷ []) [] (buddy ∷ []) length-allocated length-allocated idle-IsIdle
      two_packets-IsFramed (omega arith)
