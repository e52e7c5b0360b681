-- ===== src/Iocp/Working.antt =====
-- About the loop of `WorkThread` of IOCPCommunication/source/IOCPBase.cpp.
use my_communication.Prelude.{
  ℕ, ◌≡◌, ◌≢◌, refl, sym, ap, subst, ◌∙◌, inl, inr, true, false, List, [], ◌∷◌, ◌++◌, Option, none,
  some, ◌>>=◌, All, Option-cases, fun_ext,
}
use my_communication.Iocp.State.{
  EOperateType, eop_unknown, eop_connect, eop_accept, eop_receive, eop_send, eop_disconnect,
  eop_keep_live, Iocp,
}
use my_communication.Iocp.Closing.{IsHeld}
use my_communication.Iocp.Registry.{IsTaken}
use my_communication.Iocp.Steps.{
  IsIntact, completes_send, completes_receive, completes_connect, completes_accept,
  completes_disconnect, Step-IsIntact,
}
use my_communication.Iocp.Work.{
  IoRef, embedded, pooled, at_ref, Packet, dispatch_type, hand_server_operate, result_of,
  ends_thread, handle_packet, work_thread,
}
use my_communication.Iocp.Threads.{handle_all}

-- The operating system reports the end of an operation that was pending: its IO context, if it is one
-- of the pool, is in use and not queued, its socket context has not gone back to the pool, and
-- `DisconnectEx` is an operation on a connection that was given up.
pub record IsHonest (k : Packet) (s : Iocp) : Type 0 where
  pub held : (io : ℕ) → k.overlapped ≡ some (pooled io) → IsHeld s io
  pub taken : (ref : IoRef) → k.overlapped ≡ some ref → IsTaken s k.context
  pub given_up :
      (ref : IoRef)
      → k.overlapped ≡ some ref
      → (at_ref ref s).operate_type ≡ eop_disconnect
      → s.disconnect_flag k.context ≢ 0

given : (t u : Iocp) → some t ≡ some u → t ≡ u
given t u e = cc

never : (t : Iocp) → none ≡ some t → ⊥
never t e = cc

dispatch_type-IsIntact :
    (type : EOperateType) (result p : ℕ) (ref : IoRef) (k : Packet) (s t : Iocp)
    → IsIntact s
    → ((io : ℕ) → ref ≡ pooled io → IsHeld s io)
    → IsTaken s p
    → (type ≡ eop_disconnect → s.disconnect_flag p ≢ 0)
    → dispatch_type type result p ref k s ≡ some t
    → IsIntact t
unfolding dispatch_type
dispatch_type-IsIntact eop_accept result p ref k s t intact held taken closed e =
    subst IsIntact (given _ t e)
      (Step-IsIntact s _ (completes_accept result p (at_ref ref s).user_key s) intact)
dispatch_type-IsIntact eop_connect result p ref k s t intact held taken closed e =
    subst IsIntact (given _ t e) (Step-IsIntact s _ (completes_connect result p s taken) intact)
dispatch_type-IsIntact eop_disconnect result p (embedded q) k s t intact held taken closed e =
    absurd (never t e)
dispatch_type-IsIntact eop_disconnect result p (pooled io) k s t intact held taken closed e =
    subst IsIntact (given _ t e) (
      Step-IsIntact s _ (completes_disconnect result p io s (held io refl) taken (closed refl))
        intact)
dispatch_type-IsIntact eop_receive result p ref k s t intact held taken closed e =
    Step-IsIntact s t (completes_receive result p k.received s t taken e) intact
dispatch_type-IsIntact eop_send result p (embedded q) k s t intact held taken closed e =
    absurd (never t e)
dispatch_type-IsIntact eop_send result p (pooled io) k s t intact held taken closed e =
    subst IsIntact (given _ t e)
      (Step-IsIntact s _ (completes_send result p io k.transferred s (held io refl) taken) intact)
dispatch_type-IsIntact eop_keep_live result p ref k s t intact held taken closed e =
    absurd (never t e)
dispatch_type-IsIntact eop_unknown result p ref k s t intact held taken closed e =
    absurd (never t e)

handle_packet-IsIntact :
    (k : Packet) (s t : Iocp) → IsIntact s → IsHonest k s → handle_packet k s ≡ some t → IsIntact t
unfolding handle_packet hand_server_operate
handle_packet-IsIntact k s t intact honest e = elim (Option-cases k.overlapped) [
  | inl none_ ↦ subst IsIntact (given s t (sym (no_operation none_) ∙ e)) intact
  | inr (ref, some_) ↦
      dispatch_type-IsIntact (at_ref ref s).operate_type (result_of k) k.context ref k s t intact
        (λ io same. honest.held io (some_ ∙ ap (λ r. some r) same)) (honest.taken ref some_)
        (honest.given_up ref some_) (sym (operation ref some_) ∙ e)
]
  where
    no_operation : k.overlapped ≡ none → handle_packet k s ≡ some s
    no_operation none_ = rw (none_, handle_packet) refl

    operation :
        (ref : IoRef)
        → k.overlapped ≡ some ref
        → handle_packet k s
          ≡ dispatch_type (at_ref ref s).operate_type (result_of k) k.context ref k s
    operation ref some_ =
        ap
          (λ (o : Option IoRef). elim o [
            | none ↦ some s
            | some r ↦ dispatch_type (at_ref r s).operate_type (result_of k) k.context r k s
          ])
          some_

-- Each packet is honest where it is handled.
abbrev pub AllHonest : List Packet → Iocp → Type 0
AllHonest [] s = Unit
AllHonest (k ∷ ks) s = IsHonest k s × ((t : Iocp) → handle_packet k s ≡ some t → AllHonest ks t)

abbrev pub IsIntactIfAny : Option Iocp → Type 0
IsIntactIfAny none = Unit
IsIntactIfAny (some s) = IsIntact s

handle_all-IsIntact :
    (ks : List Packet) (s : Iocp) → IsIntact s → AllHonest ks s → IsIntactIfAny (handle_all ks s)
unfolding handle_all
handle_all-IsIntact [] s intact honest = intact
handle_all-IsIntact (k ∷ ks) s intact (honest, later) = elim (Option-cases (handle_packet k s)) [
  | inl e ↦ rw e tt
  | inr (t, e) ↦
      rw e (handle_all-IsIntact ks t (handle_packet-IsIntact k s t intact honest e) (later t e))
]

bind_assoc :
    (o : Option Iocp) (f : Iocp → Option Iocp) (g : Iocp → Option (Iocp × List Packet))
    → ((o >>= f) >>= g) ≡ (o >>= (λ t. f t >>= g))
bind_assoc none f g = refl
bind_assoc (some t) f g = refl

work_thread-run :
    (ks rest : List Packet) (last : Packet) (s : Iocp)
    → All (λ k. ends_thread k ≡ false) ks
    → ends_thread last ≡ true
    → work_thread (ks ++ last ∷ rest) s ≡ (handle_all ks s >>= (λ t. some (t, rest)))
unfolding work_thread handle_all
work_thread-run [] rest last s more over = rw over refl
work_thread-run (k ∷ ks) rest last s (goes_on, more) over =
    let step : work_thread (k ∷ ks ++ last ∷ rest) s
        ≡ (handle_packet k s >>= (λ t. work_thread (ks ++ last ∷ rest) t)) =
      rw goes_on refl in
    step
    ∙ ap (λ f. handle_packet k s >>= f) (fun_ext (λ t. work_thread-run ks rest last t more over))
    ∙ sym (bind_assoc (handle_packet k s) (λ t. handle_all ks t) (λ t. some (t, rest)))

-- A thread handles the packets up to the first one that ends it, in order, and leaves the others to
-- the other threads; it comes to an end unless a handler does not. The IO contexts, the connection
-- list and both pools stay intact, provided that each packet is about an operation that was pending.
pub work_thread_lem :
    (ks rest : List Packet) (last : Packet) (s : Iocp)
    → IsIntact s
    → AllHonest ks s
    → All (λ k. ends_thread k ≡ false) ks
    → ends_thread last ≡ true
    → (work_thread (ks ++ last ∷ rest) s ≡ (handle_all ks s >>= (λ t. some (t, rest))))
      × IsIntactIfAny (handle_all ks s)
work_thread_lem ks rest last s intact honest more over =
    (work_thread-run ks rest last s more over, handle_all-IsIntact ks s intact honest)
