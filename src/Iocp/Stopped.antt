-- ===== src/Iocp/Stopped.antt =====
-- About stopping one connection in `StopServer` and `StopClient`.
use my_communication.Prelude.{
  ℕ, ◌≡◌, ◌≢◌, refl, ap, ◌∙◌, inl, inr, List, [], ◌∷◌, Option, none, ◌==◌, arith, Bool-cases,
}
use my_communication.Prelude.Assoc.{erase}
use my_communication.Iocp.State.{
  Iocp, set_flag, set_queue, get_io, put_io, put_socket_context, overlapped_result, next_reply,
}
use my_communication.Iocp.Disconnect.{recycle_queue, recycle_socket_rsc}
use my_communication.Iocp.Lifecycle.{finish_stop, stop_connection}

-- What stopping one connection does not touch.
pub recycle_queue-contexts :
    (p : ℕ) (ios : List ℕ) (s : Iocp)
    → let t = recycle_queue p ios s in
      (t.context_socket ≡ s.context_socket)
      × (t.receive_context ≡ s.receive_context)
      × (t.connect_list ≡ s.connect_list)
unfolding recycle_queue put_io
recycle_queue-contexts p [] s = (refl, refl, refl)
recycle_queue-contexts p (io ∷ ios) s = recycle_queue-contexts p ios (set_queue p ios (put_io io s))

pub recycle_socket_rsc-contexts :
    (p : ℕ) (s : Iocp)
    → let t = recycle_socket_rsc p none s in
      (t.context_socket ≡ s.context_socket)
      × (t.receive_context ≡ s.receive_context)
      × (t.connect_list ≡ s.connect_list)
unfolding recycle_socket_rsc
recycle_socket_rsc-contexts p s = elim (Bool-cases (s.disconnect_flag p == 0)) [
  | inl open_ ↦ rw open_ (recycle_queue-contexts p (s.queue_io_context p) (set_flag p 1 s))
  | inr closed ↦ elim (Bool-cases (s.disconnect_flag p == 1)) [
    | inl one ↦ rw (closed, one) (refl, refl, refl)
    | inr more ↦ rw (closed, more) (refl, refl, refl)
  ]
]

pub get_io-contexts :
    (s : Iocp)
    → let t = (get_io s).1 in
      (t.context_socket ≡ s.context_socket)
      × (t.receive_context ≡ s.receive_context)
      × (t.connect_list ≡ s.connect_list)
unfolding get_io
get_io-contexts s = ground arith

pub finish_stop-contexts :
    (q io : ℕ) (s : Iocp)
    → let t = finish_stop q io s in
      ((p : ℕ) → p ≢ q → t.context_socket p ≡ s.context_socket p)
      × (t.receive_context ≡ s.receive_context)
      × (t.connect_list ≡ s.connect_list)
unfolding put_io put_socket_context
finish_stop-contexts q io s = elim (Bool-cases (overlapped_result (next_reply s) == 0)) [
  | inl e ↦ rw e (λ p ne. refl, refl, refl)
  | inr e ↦ rw e (λ p ne. ground (arith, ne), refl, refl)
]

pub stop_connection-contexts :
    (key q : ℕ) (s : Iocp)
    → let t = stop_connection key q s in
      ((p : ℕ) → p ≢ q → t.context_socket p ≡ s.context_socket p)
      × (t.receive_context ≡ s.receive_context)
      × (t.connect_list ≡ erase key s.connect_list)
unfolding stop_connection
stop_connection-contexts key q s =
    let s₁ = recycle_socket_rsc q none s in
    let (a, b, c) = recycle_socket_rsc-contexts q s in
    let (d, e, f) = get_io-contexts s₁ in
    let (g, h, i) = finish_stop-contexts q (get_io s₁).0 (get_io s₁).1 in
    (λ p ne. g p ne ∙ ap (λ (u : ℕ → Option ℕ). u p) (d ∙ a), h ∙ e ∙ b, ap (erase key) (i ∙ f ∙ c))
