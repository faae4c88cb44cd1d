-- ===== src/Packets/Game/Format.antt =====
-- The game packet follows the packet format, if the address can be read.
use xfire.Prelude.{
  ℕ, ◌+◌, ◌*◌, ◌/◌, ◌%◌, ◌<◌, ◌≡◌, ◌≢◌, refl, ap, ◌∙◌, [], ◌∷◌, ◌++◌, Option, some, none, codes,
  length, drop, leb, if◌then◌else◌, List, arith, All, IsByte,
}
use xfire.Prelude.Int.{ℤ, pos, ◌-ℤ◌, div_256, mul_256, to_byte}
use xfire.Buffer.{Bytes, put}
use xfire.Buffer.Writes.{
  Writes, put-Writes, then-Writes, end-Writes, bind-Writes, silent-Writes, known-Writes,
}
use xfire.Buffer.Overlap.{swapped-Writes}
use xfire.Buffer.Faults.{bind-Faults, then-Faults, given-Faults, known-Faults}
use xfire.Clib.{format_d}
use xfire.Create.{xfire_add_att_name, xfire_add_header}
use xfire.Create.Address.{IpAddress, SplitsBytes, xfire_ipaddr_init}
use xfire.Create.Address.Dotted.{dotted, dotted-ne-nil, ipaddr_init-dotted}
use xfire.Create.Pieces.{add_att_name-Writes, add_header-Writes, reheaded-stored}
use xfire.Wire.{Packet, nil, attr, named, word, encode, written}
use xfire.Packets.Game.{octet_at, low_part, join_game_id, server_address, xfire_join_game}

low_part-byte : (n : ℕ) → to_byte (low_part (pos n)) ≡ n % 256
unfolding low_part ◌-ℤ◌ mul_256 div_256 to_byte
low_part-byte n = ground arith

div_256-byte : (n : ℕ) → to_byte (div_256 (pos n)) ≡ n / 256 % 256
unfolding div_256 to_byte
div_256-byte n = refl

-- The octets go out in reverse, so the number counts the last one lowest.
abbrev pub game_packet : ℕ → ℕ → ℕ → ℕ → ℕ → ℕ → Packet
game_packet game port a b c d = record {
  type = 4;
  attrs = attr (named (codes "gameid")) (word game) (
      attr (named (codes "gip")) (word (d + c * 256 + b * 65536 + a * 16777216))
        (attr (named (codes "gport")) (word port) nil));
}

join_game_id-Writes :
    (game : ℕ)
    → Writes
        (join_game_id (pos game))
        0
        ((17 ∷ 0 ∷ 4 ∷ 0 ∷ 1 ∷ [])
          ++ (6 ∷ codes "gameid" ++ (2 ∷ game % 256 ∷ game / 256 % 256 ∷ 0 ∷ 0 ∷ [])))
        17
unfolding join_game_id
join_game_id-Writes game =
    rw (low_part-byte game, div_256-byte game)
      (then-Writes (add_header-Writes 17 4 1) refl (
        bind-Writes _ (add_att_name-Writes 5 (codes "gameid")) refl (
          then-Writes (put-Writes 12 2) refl (
            swapped-Writes {i = 13} (game % 256) (game / 256 % 256)
              (then-Writes (put-Writes 15 0) refl (end-Writes (put-Writes 16 0) refl))))))

-- What stands behind the game: the address and the port.
gip_gport : ℕ → ℕ → ℕ → ℕ → ℕ → Bytes
gip_gport port a b c d =
    3 ∷ codes "gip"
    ++ (2 ∷ d ∷ c ∷ b ∷ a ∷ 5 ∷ codes "gport" ++ (2 ∷ port % 256 ∷ port / 256 % 256 ∷ 0 ∷ 0 ∷ []))

octets-known :
    (ips : IpAddress) (a b c d : ℕ)
    → ips.octet ≡ a ∷ b ∷ c ∷ d ∷ []
    → (octet_at (some ips) 3 ≡ some d)
      × (octet_at (some ips) 2 ≡ some c)
      × (octet_at (some ips) 1 ≡ some b)
      × (octet_at (some ips) 0 ≡ some a)
unfolding octet_at
octets-known ips a b c d e = (rw e, rw e, rw e, rw e)

-- The rest of the routine, behind the second header.
rest-stored :
    (game port a b c d : ℕ) (ips : IpAddress) (strsplit : Bytes → Bytes → List Bytes)
    (given_port : ℤ) (ip : Option Bytes) (buffer : Bytes)
    → server_address strsplit given_port ip ≡ (some (some ips), pos port)
    → ips.octet ≡ a ∷ b ∷ c ∷ d ∷ []
    → xfire_join_game strsplit (pos game) given_port ip buffer ≡ (
        if leb 37 (length buffer)
        then some (
          37,
          (37
                ∷ 0
                ∷ 4
                ∷ 0
                ∷ 3
                ∷ ((6 ∷ codes "gameid" ++ (2 ∷ game % 256 ∷ game / 256 % 256 ∷ 0 ∷ 0 ∷ []))
                    ++ gip_gport port a b c d))
              ++ drop 37 buffer,
        )
        else none)
unfolding xfire_join_game gip_gport
rest-stored game port a b c d ips strsplit given_port ip buffer known octets =
    rw (known, low_part-byte port, div_256-byte port)
      (reheaded-stored _ 37 4 3 (17 ∷ 0 ∷ 4 ∷ 0 ∷ 1 ∷ [])
        (6 ∷ codes "gameid" ++ (2 ∷ game % 256 ∷ game / 256 % 256 ∷ 0 ∷ 0 ∷ [])) refl
        (join_game_id-Writes game)
        (silent-Writes _ (known-Writes 17 _ _ refl) (
          bind-Writes _ (add_att_name-Writes 17 (codes "gip")) refl (
            then-Writes (put-Writes 21 2) refl (
              silent-Writes _ (known-Writes 22 _ _ (o.0)) (
                then-Writes (put-Writes 22 d) refl (
                  silent-Writes _ (known-Writes 23 _ _ (o.1)) (
                    then-Writes (put-Writes 23 c) refl (
                      silent-Writes _ (known-Writes 24 _ _ (o.2)) (
                        then-Writes (put-Writes 24 b) refl (
                          silent-Writes _ (known-Writes 25 _ _ (o.3)) (
                            then-Writes (put-Writes 25 a) refl (
                              bind-Writes _ (add_att_name-Writes 26 (codes "gport")) refl (
                                then-Writes (put-Writes 32 2) refl (
                                  then-Writes (put-Writes 33 _) refl (
                                    then-Writes (put-Writes 34 _) refl (
                                      then-Writes (put-Writes 35 0) refl
                                        (end-Writes (put-Writes 36 0) refl)))))))))))))))))
        buffer)
  where
    o :
        (octet_at (some ips) 3 ≡ some d)
        × (octet_at (some ips) 2 ≡ some c)
        × (octet_at (some ips) 1 ≡ some b)
        × (octet_at (some ips) 0 ≡ some a)
    o = octets-known ips a b c d octets

game_packet-bytes :
    (game port a b c d : ℕ)
    → game < 65536
    → port < 65536
    → All IsByte (a ∷ b ∷ c ∷ d ∷ [])
    → 37
        ∷ 0
        ∷ 4
        ∷ 0
        ∷ 3
        ∷ ((6 ∷ codes "gameid" ++ (2 ∷ game % 256 ∷ game / 256 % 256 ∷ 0 ∷ 0 ∷ []))
            ++ gip_gport port a b c d)
      ≡ encode (game_packet game port a b c d)
unfolding gip_gport encode
game_packet-bytes game port a b c d hg hp h = ground arith

server_address-text :
    (strsplit : Bytes → Bytes → List Bytes) (port : ℤ) (ip : Bytes)
    → ip ≢ []
    → server_address strsplit port (some ip) ≡ (xfire_ipaddr_init strsplit ip, port)
unfolding server_address
server_address-text strsplit port [] h = absurd (h refl)
server_address-text strsplit port (c ∷ ip) h = refl

game-written :
    (game port a b c d : ℕ) (ips : IpAddress) (strsplit : Bytes → Bytes → List Bytes)
    (given_port : ℤ) (ip : Option Bytes) (buffer : Bytes)
    → server_address strsplit given_port ip ≡ (some (some ips), pos port)
    → ips.octet ≡ a ∷ b ∷ c ∷ d ∷ []
    → game < 65536
    → port < 65536
    → All IsByte (a ∷ b ∷ c ∷ d ∷ [])
    → xfire_join_game strsplit (pos game) given_port ip buffer
      ≡ written (game_packet game port a b c d) buffer
unfolding gip_gport
game-written game port a b c d ips strsplit given_port ip buffer known octets hg hp h =
    rw (← game_packet-bytes game port a b c d hg hp h)
      (rest-stored game port a b c d ips strsplit given_port ip buffer known octets)

ipaddr_init_bad :
    (strsplit : Bytes → Bytes → List Bytes) (ip : Bytes)
    → ip ≢ []
    → length (strsplit ip (codes ".")) ≢ 4
    → xfire_ipaddr_init strsplit ip ≡ some none
unfolding xfire_ipaddr_init
ipaddr_init_bad strsplit [] h bad = absurd (h refl)
ipaddr_init_bad strsplit (c ∷ ip) h bad = ground arith

module _ (strsplit : Bytes → Bytes → List Bytes) where
  -- For a `g_strsplit` that splits, and a game and a port below 65536, `xfire_join_game` with an address
  -- in dotted form stores the packet with the game, the address and the port, or runs out of the array.
  pub join_game-written :
      (game port a b c d : ℕ) (buffer : Bytes)
      → SplitsBytes strsplit
      → game < 65536
      → port < 65536
      → All IsByte (a ∷ b ∷ c ∷ d ∷ [])
      → xfire_join_game strsplit (pos game) (pos port) (some (dotted a b c d)) buffer
        ≡ written (game_packet game port a b c d) buffer
  join_game-written game port a b c d buffer law hg hp h =
      let (ips, init, octets) = ipaddr_init-dotted strsplit a b c d law h in
      game-written game port a b c d ips strsplit (pos port) (some (dotted a b c d)) buffer
        (server_address-text strsplit (pos port) (dotted a b c d) (dotted-ne-nil a b c d h)
          ∙ ap (λ r. (r, pos port)) init)
        octets hg hp h

  -- For a `g_strsplit` that splits and a game below 65536: without an address, `xfire_join_game`
  -- stores the address 0.0.0.0 and, whatever port it is given, the port 0, or runs out of the
  -- array.
  pub join_game_nowhere :
      (game : ℕ) (port : ℤ) (buffer : Bytes)
      → SplitsBytes strsplit
      → game < 65536
      → xfire_join_game strsplit (pos game) port none buffer
        ≡ written (game_packet game 0 0 0 0 0) buffer
  unfolding server_address format_d
  join_game_nowhere game port buffer law hg =
      let (ips, init, octets) = ipaddr_init-dotted strsplit 0 0 0 0 law (omega arith) in
      game-written game 0 0 0 0 0 ips strsplit port none buffer (ap (λ r. (r, pos 0)) init) octets
        hg (omega arith) (omega arith)

  -- Where the address is neither missing nor made of four parts, `xfire_join_game` follows
  -- the null pointer that `xfire_ipaddr_init` returns.
  pub join_game_crash :
      (game port : ℤ) (ip buffer : Bytes)
      → ip ≢ []
      → length (strsplit ip (codes ".")) ≢ 4
      → xfire_join_game strsplit game port (some ip) buffer ≡ none
  unfolding xfire_join_game octet_at
  join_game_crash game port ip buffer h bad = rw (server_address-text strsplit port ip h) (
      bind-Faults (join_game_id game) _
        (λ index. then-Faults (xfire_add_header 37 4 3) _ (
          known-Faults _ none _ (ipaddr_init_bad strsplit ip h bad) (
            bind-Faults (xfire_add_att_name index (codes "gip")) _
              (λ index'. then-Faults (put index' 2) _ (given-Faults none _ refl)))))
        buffer)
