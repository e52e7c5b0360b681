-- ===== src/Server/Handling.antt =====
-- About a message on its way through the queue of PbMessageHandle.cpp to its handler.
use my_communication.Prelude.{
  ℕ, ◌≡◌, refl, sym, ap, subst, ◌∙◌, inl, inr, ◌⊎◌, true, false, List, [], ◌∷◌, none, some,
  Bool-cases, Option-cases, Option,
}
use my_communication.Prelude.Assoc.{Assoc, lookup}
use my_communication.Resource.{get}
use my_communication.Users.{UserInfoManage}
use my_communication.Users.Tables.{IsUserTable}
use my_communication.Messages.{
  DataExchange, Handler, write_message, Parser, MessageData, PbMessageHandle, add_message_data,
  get_msg_struct, take_resource, enqueue, take_message, dispatch, finish_message,
}
use my_communication.Messages.Queue.{
  IsQueue, incoming, added, add_message_data_lem, take_message_lem,
}
use my_communication.Server.{Site, finish_taken, handle_next}
use my_communication.Replies.{PbMsg}
use my_communication.Server.Kept.{IsSite, AllKeep}

-- Without a message that waits, nothing happens.
abbrev pub after_handling : Site → Option ((ℕ × List PbMsg) × Site) → Site
after_handling s none = s
after_handling s (some r) = r.1

-- Two states with the same handlers that both run, or are both stopped.
abbrev pub SameHandling : PbMessageHandle → PbMessageHandle → Type 0
SameHandling s t = (t.start ≡ s.start) × (t.map_msg_handle ≡ s.map_msg_handle)

take_resource-SameHandling : (s : PbMessageHandle) → SameHandling s (take_resource s).1
unfolding take_resource
take_resource-SameHandling s = elim (Option-cases (get true s.rsc_message)) [
  | inl e ↦ rw (e, take_resource) (refl, refl)
  | inr (r, e) ↦ rw (e, take_resource) (refl, refl)
]

enqueue-SameHandling :
    (p : ℕ) (parsed : Option DataExchange) (s : PbMessageHandle)
    → SameHandling s (enqueue p parsed s)
enqueue-SameHandling p none s = (refl, refl)
enqueue-SameHandling p (some x) s = (refl, refl)

-- No message changes which handlers there are.
pub add_message_data-SameHandling :
    (parser : Parser) (key msg_type : ℕ) (bytes : List ℕ) (s : PbMessageHandle)
    → SameHandling s (add_message_data parser key msg_type bytes s)
unfolding add_message_data
add_message_data-SameHandling parser key msg_type bytes s = elim (Bool-cases s.start) [
  | inl e ↦
      let parsed = get_msg_struct parser msg_type bytes in
      let (start₁, handlers₁) = take_resource-SameHandling s in
      let (start₂, handlers₂) =
        enqueue-SameHandling (take_resource s).0 parsed
          (write_message (take_resource s).0 (incoming key msg_type parsed) (take_resource s).1) in
      subst (SameHandling s) (sym (added parser key msg_type bytes s e))
        (start₂ ∙ start₁, handlers₂ ∙ handlers₁)
  | inr e ↦ rw e (refl, refl)
]

pub add_message_data-IsQueue :
    (parser : Parser) (key msg_type : ℕ) (bytes : List ℕ) (s : PbMessageHandle)
    → IsQueue s
    → IsQueue (add_message_data parser key msg_type bytes s)
unfolding add_message_data
add_message_data-IsQueue parser key msg_type bytes s sound = elim (Bool-cases s.start) [
  | inl e ↦ (add_message_data_lem parser key msg_type bytes s sound e).1
  | inr e ↦ subst IsQueue (sym (stopped e)) sound
]
  where
    stopped : s.start ≡ false → add_message_data parser key msg_type bytes s ≡ s
    stopped e = rw e refl

-- Handling the next message: the memory of the queue and the table stay sound, and the same keys
-- are known.
abbrev pub Keeps : Site → Site → Type 0
Keeps s t = IsSite t × (t.users.map_user_list ≡ s.users.map_user_list)

dispatch-keeps :
    (d : MessageData) (handlers : Assoc Handler) (users : UserInfoManage)
    → AllKeep handlers
    → IsUserTable users
    → IsUserTable (dispatch d handlers users).0
      × ((dispatch d handlers users).0.map_user_list ≡ users.map_user_list)
unfolding dispatch
dispatch-keeps d handlers users keep sound = elim (Option-cases (lookup d.msg_type handlers)) [
  | inl e ↦ rw (e, dispatch) (sound, refl)
  | inr (handle, e) ↦ rw (e, dispatch) (keep d.msg_type handle e d.user_key d.data_exg users sound)
]

-- The state of the queue behind its first message.
abbrev pub behind : List ℕ → PbMessageHandle → PbMessageHandle
behind rest m = record m { msg_list = rest }

pub take_message-behind :
    (p : ℕ) (rest : List ℕ) (m : PbMessageHandle)
    → m.start ≡ true
    → m.msg_list ≡ p ∷ rest
    → take_message m ≡ some (p, behind rest m)
unfolding take_message
take_message-behind p rest m e list = rw (list, take_message, e) refl

same_taken : (a b : ℕ × PbMessageHandle) → some a ≡ some b → a.1 ≡ b.1
same_taken a b e = let same : a ≡ b = cc in ap (λ (r : ℕ × PbMessageHandle). r.1) same

finish-IsQueue :
    (p : ℕ) (rest : List ℕ) (m : PbMessageHandle) (users : UserInfoManage)
    → IsQueue m
    → m.start ≡ true
    → m.msg_list ≡ p ∷ rest
    → IsQueue (finish_message p (behind rest m) users).0
finish-IsQueue p rest m users sound e list =
    let (t, run, _, fine, _, _, _) = take_message_lem p rest m users sound e list in
    let same : t ≡ behind rest m =
      same_taken (p, t) (p, behind rest m) (sym run ∙ take_message-behind p rest m e list) in
    subst (λ u. IsQueue (finish_message p u users).0) same fine

pub finish_taken-Keeps :
    (p : ℕ) (rest : List ℕ) (s : Site)
    → IsSite s
    → s.messages.start ≡ true
    → s.messages.msg_list ≡ p ∷ rest
    → Keeps s (finish_taken p (behind rest s.messages) s).1
unfolding finish_message
finish_taken-Keeps p rest s sound e list =
    let (table, same) =
      dispatch-keeps (s.messages.messages p) s.messages.map_msg_handle s.users sound.handlers
        sound.table in
    (
      record {
        linked = sound.linked;
        table = table;
        queue = finish-IsQueue p rest s.messages s.users sound.queue e list;
        handlers = sound.handlers;
      },
      same,
    )

pub waiting-cases :
    (m : PbMessageHandle)
    → (take_message m ≡ none)
      ⊎ ((p : ℕ) × (rest : List ℕ) × (m.start ≡ true) × (m.msg_list ≡ p ∷ rest))
unfolding take_message
waiting-cases m = go m.msg_list refl
  where
    go :
        (l : List ℕ)
        → m.msg_list ≡ l
        → (take_message m ≡ none)
          ⊎ ((p : ℕ) × (rest : List ℕ) × (m.start ≡ true) × (m.msg_list ≡ p ∷ rest))
    go [] e = inl (rw (e, take_message) refl)
    go (p ∷ rest) e = elim (Bool-cases m.start) [
      | inl on ↦ inr (p, rest, on, e)
      | inr off ↦ inl (rw (e, take_message, off) refl)
    ]

pub handle_next-Keeps : (s : Site) → IsSite s → Keeps s (after_handling s (handle_next s))
unfolding handle_next
handle_next-Keeps s sound = elim (waiting-cases s.messages) [
  | inl none_ ↦ rw (none_, handle_next) (sound, refl)
  | inr (p, rest, on, list) ↦
      rw (take_message-behind p rest s.messages on list, handle_next)
        (finish_taken-Keeps p rest s sound on list)
]
