-- ===== src/Session/Dispatch/Quiet.antt =====
-- Which packets the client answers.
use xfire.Prelude.{
  All, ℕ, ◌≤◌, ◌≡◌, refl, Bool, true, false, ◌||◌, Option-cases, Bool-cases, inl, inr, List, [],
  ◌∷◌, Option, none, some, ◌==◌, length, if◌then◌else◌, arith,
}
use xfire.Buffer.{Bytes, Op, ◌>>=◌, ◌>>◌, read_at}
use xfire.Partial
use xfire.Session.Buddy.{Buddy, Event, for_each, xfire_check_buddy_status}
use xfire.Session.Incoming.{
  HandlerLocals, Handled, string_in, with_text, xfire_read_status, xfire_read_status_new,
}
use xfire.Session.Contacts.{xfire_read_invitation}
use xfire.Session.Roster.{xfire_read_buddys}
use xfire.Session.Dispatch.{
  Gaim, Arrays, Dispatched, quiet, with_news, reply, buddys_received, invited, shown, status_new,
  is_ignored, switch, asks_about,
}

-- Nothing is written, where there is a result.
abbrev pub IsSilent : Option Dispatched → Type 0
IsSilent none = Unit
IsSilent (some d) = d.written ≡ []

-- The handler's result 0: there is no reply.
abbrev HasNoReply : Option (Handled × Bytes) → Type 0
HasNoReply none = Unit
HasNoReply (some (h, b)) = h.size ≡ 0

bind-HasNoReply :
    {A : Type 0} (m : Op A) (f : A → Op Handled) (b : Bytes)
    → ((a : A) (b' : Bytes) → HasNoReply (f a b'))
    → HasNoReply ((m >>= f) b)
unfolding ◌>>=◌
bind-HasNoReply m f b h = elim (Option-cases (m b)) [
  | inl fault ↦ rw (fault, ◌>>=◌) tt
  | inr ((a, b'), e) ↦ rw (e, ◌>>=◌) (h a b')
]

then-HasNoReply :
    (m : Op (Unit {0})) (k : Op Handled) (b : Bytes)
    → ((b' : Bytes) → HasNoReply (k b'))
    → HasNoReply ((m >> k) b)
unfolding ◌>>◌
then-HasNoReply m k b h = bind-HasNoReply m (λ _. k) b (λ _ b'. h b')

with_text-HasNoReply :
    (locals : HandlerLocals) (sid text : Bytes) (buddies : List Buddy)
    → HasNoReply (with_text locals sid buddies text)
unfolding with_text
with_text-HasNoReply locals sid text buddies = elim (Option-cases (string_in text)) [
  | inl fault ↦ rw (fault, with_text) tt
  | inr (message, e) ↦
      rw (e, with_text) (told (for_each (xfire_check_buddy_status locals.temp sid message) buddies))
]
  where
    told :
        (o : Option (List Buddy × List Event))
        → HasNoReply (elim o [
          | none ↦ none
          | some (buddies, events) ↦
              some (record { size = 0; buddies = buddies; events = events }, text)
        ])
    told none = tt
    told (some (buddies, events)) = refl

read_status_new-HasNoReply :
    (locals : HandlerLocals) (packet : Bytes) (len : ℕ) (buddies : List Buddy) (text : Bytes)
    → HasNoReply (xfire_read_status_new locals packet len buddies text)
unfolding xfire_read_status_new
read_status_new-HasNoReply locals packet len buddies text =
    bind-HasNoReply _ _ text
      λ read b. bind-HasNoReply _ _ b λ index b'. with_text-HasNoReply locals read.1 b' buddies

read_status-HasNoReply :
    (locals : HandlerLocals) (packet : Bytes) (len : ℕ) (buddies : List Buddy) (text : Bytes)
    → HasNoReply (xfire_read_status locals packet len buddies text)
unfolding xfire_read_status
read_status-HasNoReply locals packet len buddies text = bind-HasNoReply _ _ text λ read b.
    bind-HasNoReply _ _ b λ type b'.
      bind-HasNoReply _ _ b'
        λ kind b''. then-HasNoReply _ _ b'' λ b3. with_text-HasNoReply locals read.1 b3 buddies

reply-IsSilent : (o : Option (Handled × Bytes)) → HasNoReply o → IsSilent (reply o)
unfolding reply
reply-IsSilent none h = tt
reply-IsSilent (some (handled, buffer)) h = elim (Option-cases (read_at buffer 0 handled.size)) [
  | inl fault ↦ rw (fault, Partial.◌>>=◌) tt
  | inr (packet, e) ↦ rw (e, Partial.◌>>=◌) rw h refl
]

with_news-IsSilent : (o : Option (List Buddy × List Event)) → IsSilent (with_news o)
with_news-IsSilent none = tt
with_news-IsSilent (some (buddies, events)) = refl

bind-IsSilent :
    {A : Type 0} (o : Option A) (f : A → Option Dispatched)
    → ((a : A) → IsSilent (f a))
    → IsSilent (Partial.◌>>=◌ o f)
unfolding Partial.◌>>=◌
bind-IsSilent none f h = tt
bind-IsSilent (some a) f h = h a

if-IsSilent :
    (b : Bool) (x y : Option Dispatched) → IsSilent x → IsSilent y → IsSilent (if b then x else y)
if-IsSilent true x y hx hy = hx
if-IsSilent false x y hx hy = hy

abbrev asked : List Buddy → Bytes → Option Dispatched
asked buddies name =
    some (record { written = []; buddies = buddies; notices = asks_about name ∷ [] })

all_false : (a b c : Bool) → (a || b || c) ≡ false → (a ≡ false) × (b ≡ false) × (c ≡ false)
all_false a b c h = ground arith

-- A packet of any type but the three for the salt, the login and a message is not answered.
pub switch-IsSilent :
    (gaim : Gaim) (arrays : Arrays) (buffer : Bytes) (command : ℕ) (packet : Bytes) (len : ℕ)
    (buddies : List Buddy)
    → (command == 128 || command == 130 || command == 133) ≡ false
    → IsSilent (switch gaim arrays buffer command packet len buddies)
unfolding switch buddys_received invited shown status_new
switch-IsSilent gaim arrays buffer command packet len buddies other =
    let (no_salt, no_login, no_message) =
      all_false (command == 128) (command == 130) (command == 133) other in
    rw (no_salt, no_login, no_message)
      (if-IsSilent (command == 129) _ _ refl (
        if-IsSilent (command == 131) _ _
          (bind-IsSilent (xfire_read_buddys gaim.blist arrays.lists packet len buddies) quiet
            (λ bs. refl))
          (if-IsSilent (command == 132) _ _ (with_news-IsSilent _) (
            if-IsSilent (command == 134) _ _ refl (
              if-IsSilent (command == 135) _ _ (with_news-IsSilent _) (
                if-IsSilent (command == 138) _ _
                  (bind-IsSilent (xfire_read_invitation arrays.name packet len) (asked buddies)
                    (λ name. refl))
                  (if-IsSilent (command == 142) _ _
                    (reply-IsSilent _
                      (read_status-HasNoReply arrays.handler packet len buddies arrays.text))
                    (if-IsSilent (command == 145) _ _ refl (
                      if-IsSilent (command == 154) _ _
                        (bind-IsSilent _ _ (λ bytes. reply-IsSilent _ (
                          read_status_new-HasNoReply arrays.handler packet len buddies
                            arrays.text)))
                        (if-IsSilent (is_ignored command) _ _ refl (
                          bind-IsSilent (read_at packet 0 len) (λ bytes. quiet buddies)
                            (λ bytes. refl))))))))))))

-- The types for which the switch has a case that does something.
abbrev pub handled_types : List ℕ
handled_types = 128 ∷ 129 ∷ 130 ∷ 131 ∷ 132 ∷ 133 ∷ 134 ∷ 135 ∷ 138 ∷ 142 ∷ 145 ∷ 154 ∷ []

shown-quiet :
    (packet : Bytes) (len : ℕ) (buddies : List Buddy)
    → len ≤ length packet
    → shown packet len buddies ≡ quiet buddies
unfolding shown read_at Partial.◌>>=◌
shown-quiet packet len buddies fits = ground arith

-- A packet of a type for which the switch has no case, or one that only logs it, changes nothing, and
-- where it lies inside the packet's array, it is no fault.
pub switch-unknown :
    (gaim : Gaim) (arrays : Arrays) (buffer : Bytes) (command : ℕ) (packet : Bytes) (len : ℕ)
    (buddies : List Buddy)
    → All (λ c. (command == c) ≡ false) handled_types
    → len ≤ length packet
    → switch gaim arrays buffer command packet len buddies ≡ quiet buddies
unfolding switch
switch-unknown gaim arrays buffer command packet len buddies
      (
        c128,
        (c129, (c130, (c131, (c132, (c133, (c134, (c135, (c138, (c142, (c145, (c154, _))))))))))),
      )
      fits =
    rw (c128, c129, c130, c131, c132, c133, c134, c135, c138, c142, c145, c154)
      (elim (Bool-cases (is_ignored command)) [
        | inl e ↦ rw e refl
        | inr e ↦ rw e (shown-quiet packet len buddies fits)
      ])
