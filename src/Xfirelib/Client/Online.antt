-- ===== src/Xfirelib/Client/Online.antt =====
-- The packet that says who is online, from the bytes of the stream to the buddy list.
use xfire.Prelude.{
  ℕ, ◌*◌, ◌≤◌, ◌<◌, ◌≡◌, refl, ◌∙◌, List, [], ◌∷◌, ◌++◌, Option, none, some, length, All,
  length-append, arith,
}
use mathlib.Core.Option
use xfire.Partial.{◌>>=◌}
use xfire.Buffer.{Bytes}
use xfire.Wire.{Packet, encode, encode_attrs, encode_words, encode_sids}
use xfire.Xfirelib.Incoming.{Games}
use xfire.Xfirelib.Incoming.Steps.{known_step}
use xfire.Xfirelib.Incoming.Lists.{online_attrs, parse_online-encode_attrs}
use xfire.Xfirelib.Reader.{
  Class, class_id, Received, Reception, get_packet_content_class, parse_content, recv_packet,
}
use xfire.Xfirelib.Reader.Frames.{IsFramed, content_of, recv_packet-encode}
use xfire.Xfirelib.BuddyList.{BuddyListEntry, get_buddy_by_id}
use xfire.Xfirelib.BuddyList.Ids.{ids}
use xfire.Xfirelib.BuddyList.Online.{come_online, update_online_buddies-come_online}
use xfire.Xfirelib.Client.{buddies_received}

abbrev pub online_packet : List ℕ → List Bytes → Packet
online_packet userids sids = record { type = 132; attrs = online_attrs userids sids }

registered_online : get_packet_content_class 132 ≡ some Class.buddies_online
unfolding get_packet_content_class class_id
registered_online = refl

length-encode_words : (ns : List ℕ) → length (encode_words ns) ≡ 4 * length ns
length-encode_words [] = refl
length-encode_words (n ∷ ns) = omega (arith, length-encode_words ns)

length-encode_sids :
    (ss : List Bytes) → All (λ s. length s ≡ 16) ss → length (encode_sids ss) ≡ 16 * length ss
length-encode_sids [] h = refl
length-encode_sids (s ∷ ss) (size, h) =
    omega (arith, size, length-append s (encode_sids ss), length-encode_sids ss h)

module _ (userids : List ℕ) (sids : List Bytes) (low : All (λ n. n < 4294967296) userids)
    (few : length sids < 256) (size : All (λ s. length s ≡ 16) sids)
    (enough : length userids ≤ length sids) where
  online_packet-IsFramed : IsFramed (online_packet userids sids)
  unfolding encode_attrs
  online_packet-IsFramed = record {
    type_small = omega arith;
    count_small = omega arith;
    some_body = omega arith;
    body_small = omega (
      arith,
      few,
      enough,
      length-append (encode_words userids),
      length-append (encode_sids sids) [],
      length-encode_words userids,
      length-encode_sids sids size,
    );
  }

  parsed :
      parse_content Class.buddies_online
        (encode_attrs (online_attrs userids sids))
        (length (encode_attrs (online_attrs userids sids)))
        2
      ≡ some (Received.buddies_online userids sids)
  unfolding parse_content
  parsed =
      known_step _ _ _
        (parse_online-encode_attrs userids sids (omega (arith, enough, few)) low few size)

  -- For users with numbers of four bytes, and at most 255 session ids of 16 bytes, at least as many as
  -- users: the packet that says who is online is taken from the stream, whatever stands behind it, and
  -- read; it leaves the buddy list with the ids that it had, and every user with the last session id
  -- that the packet gives this user, or the one from before.
  pub recv_packet-come_online :
      {Game : Type 0} (fresh : ℕ → Bytes) (rest : Bytes)
      (resolver : Option (ℕ → ℕ → Games → Option Game)) (stray : ℕ)
      (entries : List (BuddyListEntry Game))
      → ((n : ℕ) → length (fresh n) ≡ n)
      → (recv_packet fresh (encode (online_packet userids sids) ++ rest)
          ≡ Reception.packet (some (Received.buddies_online userids sids)) rest)
        × ((entries2 : List (BuddyListEntry Game)) × (buddies_received resolver stray
                (Received.buddies_online userids sids)
                entries
              ≡ some (entries2, none))
            × (ids entries2 ≡ ids entries)
            × ((u : ℕ)
                → get_buddy_by_id u entries2
                  ≡ Option.map (come_online u userids sids) (get_buddy_by_id u entries)))
  unfolding buddies_received ◌>>=◌
  recv_packet-come_online fresh rest resolver stray entries sized =
      let (entries2, done, same, each) =
        update_online_buddies-come_online userids sids entries enough in
      (
        recv_packet-encode fresh (online_packet userids sids) rest sized online_packet-IsFramed
            ∙ rw (registered_online, content_of, parsed, content_of) refl,
        (entries2, rw done refl, same, each),
      )
