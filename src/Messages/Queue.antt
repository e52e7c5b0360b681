-- ===== src/Messages/Queue.antt =====
-- About `AddMessageData` and `MessageHandleThread` of
-- ServerFramework/Component/MessageHandle/PbMessageHandle.cpp.
use my_communication.Prelude.{
  ℕ, ◌≤◌, ◌≡◌, ◌≢◌, refl, sym, ap, subst, ◌∙◌, Bool, true, false, List, [], ◌∷◌, ◌++◌, Option, none,
  some, ◌==◌, if◌then◌else◌, arith, ==_refl, count, count-append, map, dec_lt,
}
use my_communication.Prelude.Assoc.{lookup, lookup-erase, count-keys_pos}
use my_communication.Resource.{ResourceManage, construct, put}
use my_communication.Resource.Invariant.{
  IsValid, IsLive, Handed, construct-IsValid, put-live, returned-IsValid,
}
use my_communication.Resource.Steps.{get_unlimited}
use my_communication.Users.{UserInfoManage}
use my_communication.Messages.{
  DataExchange, Parser, get_msg_struct, MessageData, PbMessageHandle, message_resource_count,
  new_pb_message_handle, take_resource, write_message, enqueue, add_message_data, take_message,
  dispatch, finish_message,
}

pub record IsQueue (s : PbMessageHandle) : Type 0 where
  pub valid : IsValid s.rsc_message
  pub unlimited : s.rsc_message.is_limited ≡ false
  pub live : (p : ℕ) → 1 ≤ count p s.msg_list → IsLive s.rsc_message p
  pub once : (p : ℕ) → count p s.msg_list ≤ 1

-- Taken by a thread, and not handled yet.
pub record IsTaken (p : ℕ) (s : PbMessageHandle) : Type 0 where
  pub live : IsLive s.rsc_message p
  pub unqueued : count p s.msg_list ≡ 0

-- The messages that wait, as the threads will see them.
abbrev pub content : PbMessageHandle → List MessageData
content s = map s.messages s.msg_list

map-update :
    (p : ℕ) (d : MessageData) (f : ℕ → MessageData) (l : List ℕ)
    → count p l ≡ 0
    → map (λ q. if p == q then d else f q) l ≡ map f l
map-update p d f [] h = refl
map-update p d f (q ∷ l) h =
    let other : p == q ≡ false = ground (arith, h) in
    let rest = map-update p d f l (ground (arith, h)) in rw (other, rest) refl

map-snoc : (f : ℕ → MessageData) (l : List ℕ) (p : ℕ) → map f (l ++ p ∷ []) ≡ map f l ++ f p ∷ []
map-snoc f [] p = refl
map-snoc f (q ∷ l) p = ap (λ (m : List MessageData). f q ∷ m) (map-snoc f l p)

-- The state after a fresh resource has been taken and written.
abbrev pub written : ℕ → ResourceManage → MessageData → PbMessageHandle → PbMessageHandle
written p t d s = write_message p d (record s { rsc_message = t })

module _ (s : PbMessageHandle) (sound : IsQueue s) (p : ℕ) (t : ResourceManage)
    (h : Handed s.rsc_message p t) (free : t.is_limited ≡ false) (d : MessageData) where
  not_queued : count p s.msg_list ≡ 0
  not_queued = elim (dec_lt 0 (count p s.msg_list)) [
    | yes queued ↦ absurd (ground (arith, sound.live p queued, h.was_free))
    | no none_ ↦ omega arith
  ]

  kept : (q : ℕ) → IsLive s.rsc_message q → IsLive t q
  kept q held =
      let apart : q ≢ p = λ same. ground (arith, h.was_free, held, same) in h.others q apart ∙ held

  written-IsQueue : IsQueue (written p t d s)
  written-IsQueue = record {
    valid = h.valid;
    unlimited = free;
    live = λ q queued. kept q (sound.live q queued);
    once = sound.once;
  }

  pub written-IsTaken : IsTaken p (written p t d s)
  written-IsTaken = record { live = h.live; unqueued = not_queued }

  written-content : content (written p t d s) ≡ content s
  written-content = map-update p d s.messages s.msg_list not_queued

pub pushed-IsQueue :
    (p : ℕ) (x : DataExchange) (s : PbMessageHandle)
    → IsQueue s
    → IsTaken p s
    → IsQueue (enqueue p (some x) s)
pushed-IsQueue p x s sound taken = record {
  valid = sound.valid;
  unlimited = sound.unlimited;
  live = λ q queued.
      ground (arith, queued, sound.live q, taken.live, count-append q s.msg_list (p ∷ []));
  once = λ q. ground (arith, sound.once q, taken.unqueued, count-append q s.msg_list (p ∷ []));
}

pub given_back-IsQueue :
    (p : ℕ) (s : PbMessageHandle) → IsQueue s → IsTaken p s → IsQueue (enqueue p none s)
given_back-IsQueue p s sound taken = rw (put-live s.rsc_message p sound.valid taken.live) (record {
  valid = returned-IsValid s.rsc_message p sound.valid taken.live;
  unlimited = sound.unlimited;
  live = λ q queued.
      ground
        (arith, sound.live q queued, taken.unqueued, lookup-erase p q s.rsc_message.using_list);
  once = sound.once;
})

-- What comes in while the handling runs.
abbrev pub incoming : ℕ → ℕ → Option DataExchange → MessageData
incoming key msg_type parsed = record { user_key = key; msg_type = msg_type; data_exg = parsed }

pub added :
    (parser : Parser) (key msg_type : ℕ) (bytes : List ℕ) (s : PbMessageHandle)
    → s.start ≡ true
    → add_message_data parser key msg_type bytes s ≡ (
        let parsed = get_msg_struct parser msg_type bytes in
        enqueue
          (take_resource s).0
          parsed
          (write_message (take_resource s).0 (incoming key msg_type parsed) (take_resource s).1))
unfolding add_message_data
added parser key msg_type bytes s running = rw running refl

taken_resource :
    (s : PbMessageHandle)
    → IsQueue s
    → (p : ℕ) × (t : ResourceManage) × (take_resource s ≡ (p, record s { rsc_message = t }))
      × Handed s.rsc_message p t
      × (t.is_limited ≡ false)
unfolding take_resource
taken_resource s sound =
    let (p, t, run, h, free) = get_unlimited s.rsc_message sound.valid sound.unlimited in
    (p, t, rw (run, take_resource) refl, h, free)

-- What `AddMessageData` makes of the queue, by what the message parses to.
abbrev pub Queues : ℕ → ℕ → Option DataExchange → PbMessageHandle → PbMessageHandle → Type 0
Queues key msg_type none s t = content t ≡ content s
Queues key msg_type (some x) s t = content t ≡ content s ++ incoming key msg_type (some x) ∷ []

enqueued :
    (key msg_type p : ℕ) (t : ResourceManage) (parsed : Option DataExchange) (s : PbMessageHandle)
    → IsQueue s
    → Handed s.rsc_message p t
    → t.is_limited ≡ false
    → let u = enqueue p parsed (written p t (incoming key msg_type parsed) s) in
      Queues key msg_type parsed s u × IsQueue u
enqueued key msg_type p t none s sound h free =
    let d = incoming key msg_type none in
    (
      written-content s sound p t h free d,
      given_back-IsQueue p (written p t d s) (written-IsQueue s sound p t h free d)
          (written-IsTaken s sound p t h free d),
    )
enqueued key msg_type p t (some x) s sound h free =
    let d = incoming key msg_type (some x) in
    let u = written p t d s in
    let here : u.messages p ≡ d = ap (λ (b : Bool). if b then d else s.messages p) (==_refl p) in
    (
      map-snoc u.messages s.msg_list p
          ∙ ap (λ (m : MessageData). map u.messages s.msg_list ++ m ∷ []) here
          ∙ ap (λ (l : List MessageData). l ++ d ∷ []) (written-content s sound p t h free d),
      pushed-IsQueue p x u (written-IsQueue s sound p t h free d)
          (written-IsTaken s sound p t h free d),
    )

-- While the handling runs, a message that parses goes to the end of the queue, with its user, type
-- and content; one that does not changes nothing in it. The memory of the queue stays sound.
pub add_message_data_lem :
    (parser : Parser) (key msg_type : ℕ) (bytes : List ℕ) (s : PbMessageHandle)
    → IsQueue s
    → s.start ≡ true
    → let t = add_message_data parser key msg_type bytes s in
      Queues key msg_type (get_msg_struct parser msg_type bytes) s t × IsQueue t
add_message_data_lem parser key msg_type bytes s sound running =
    let parsed = get_msg_struct parser msg_type bytes in
    let (p, t, run, h, free) = taken_resource s sound in
    let step =
      ap
        (λ (r : ℕ × PbMessageHandle).
          enqueue r.0 parsed (write_message r.0 (incoming key msg_type parsed) r.1))
        run in
    subst (λ u. Queues key msg_type parsed s u × IsQueue u)
      (sym (added parser key msg_type bytes s running ∙ step))
      (enqueued key msg_type p t parsed s sound h free)

pop-IsQueue :
    (p : ℕ) (rest : List ℕ) (s : PbMessageHandle)
    → IsQueue s
    → s.msg_list ≡ p ∷ rest
    → IsQueue (record s { msg_list = rest }) × IsTaken p (record s { msg_list = rest })
pop-IsQueue p rest s sound e = (
  record {
    valid = sound.valid;
    unlimited = sound.unlimited;
    live = λ q queued. ground (arith, queued, sound.live q, ap (count q) e);
    once = λ q. ground (arith, sound.once q, ap (count q) e);
  },
  record {
    live = ground (arith, sound.live p, ap (count p) e);
    unqueued = ground (arith, sound.once p, ap (count p) e);
  },
)

-- The memory of a message is back in the pool, once, and that of the others is as before.
pub record GivesBack (p : ℕ) (s t : ResourceManage) : Type 0 where
  pub taken : IsLive s p
  pub unused : count p t.unused_list ≡ 1
  pub not_in_use : lookup p t.using_list ≡ none
  pub others : (q : ℕ) → q ≢ p → lookup q t.using_list ≡ lookup q s.using_list

put-GivesBack : (p : ℕ) (s : ResourceManage) → IsValid s → IsLive s p → GivesBack p s (put p s).0
put-GivesBack p s v live =
    let held = count-keys_pos p p s.using_list live in
    let none_unused : count p s.unused_list ≡ 0 = omega (arith, held, v.owned p, v.disjoint p) in
    rw (put-live s p v live) (record {
      taken = live;
      unused = ground (arith, none_unused, count-append p s.unused_list (p ∷ []));
      not_in_use = ground (arith, lookup-erase p p s.using_list);
      others = λ q ne. ground (arith, ne, lookup-erase p q s.using_list);
    })

-- A thread takes the oldest message. Handling it later calls the handler of its type with its user
-- and content, if there is one, and gives its memory, which was in use, back to the pool; the queue
-- and the memory of the other messages stay as they are.
pub take_message_lem :
    (p : ℕ) (rest : List ℕ) (s : PbMessageHandle) (users : UserInfoManage)
    → IsQueue s
    → s.start ≡ true
    → s.msg_list ≡ p ∷ rest
    → (t : PbMessageHandle) × (take_message s ≡ some (p, t))
      × (content s ≡ s.messages p ∷ content t)
      × IsQueue (finish_message p t users).0
      × (content (finish_message p t users).0 ≡ content t)
      × ((finish_message p t users).1 ≡ dispatch (s.messages p) s.map_msg_handle users)
      × GivesBack p s.rsc_message (finish_message p t users).0.rsc_message
unfolding take_message finish_message
take_message_lem p rest s users sound running e =
    let t = record s { msg_list = rest } in
    let (fine, taken) = pop-IsQueue p rest s sound e in
    (
      t,
      rw (e, take_message, running) refl,
      ap (map s.messages) e,
      given_back-IsQueue p t fine taken,
      refl,
      refl,
      put-GivesBack p s.rsc_message sound.valid taken.live,
    )

pub new_pb_message_handle-IsQueue :
    (messages : ℕ → MessageData) → IsQueue (new_pb_message_handle messages)
unfolding new_pb_message_handle construct
new_pb_message_handle-IsQueue messages = record {
  valid = construct-IsValid 1 message_resource_count (omega arith) (omega arith);
  unlimited = refl;
  live = λ p queued. absurd (omega arith);
  once = λ p. omega arith;
}
