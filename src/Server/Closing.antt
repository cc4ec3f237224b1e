-- ===== src/Server/Closing.antt =====
-- Concurrent calls of Server.Close (server.go), and the operations after it has begun.
use gopcda.Prelude.{
  ℕ, suc, ◌*◌, ◌^◌, ◌≤◌, ◌<◌, ◌≡◌, refl, sym, ap, ◌∙◌, true, false, Option, none, some, [], All,
  arith, ◌⊎◌, inl, inr,
}
use gopcda.Prelude.Int.{ℤ}
use gopcda.Errors.{Error, sentinel, closed}
use gopcda.Result.{Result, err}
use gopcda.Server.{
  Server, new_server, operation_error, begin_close, finish_close, await_close, add_group,
  get_server_status,
}

-- What the calls of Close do, in any order that the mutex and closeDone allow. A call that gives up
-- with its context changes nothing.
pub data Step : Server → Server → Type 0 where
  entering : (s : Server) → s.closed ≡ false → Step s (begin_close s)
  finishing : (e : Option Error) (s : Server) → s.closing ≡ true → Step s (finish_close e s)
  waiting :
      (e : Option Error) (s : Server)
      → s.closed ≡ true
      → s.close_result ≡ some e
      → Step s (await_close e s)

pub data Runs : Server → Server → Type 0 where
  here : {s : Server} → Runs s s
  next : {s t u : Server} → Step s t → Runs t u → Runs s u

-- Open and untouched, or being closed, or closed with one result.
abbrev IsSound : Server → Type 0
IsSound s =
    ((s.closed ≡ false)
      × (s.close_result ≡ none)
      × (s.closing ≡ false)
      × (s.close_calls ≡ 0)
      × (s.returned ≡ []))
    ⊎ (((s.closed ≡ true)
          × (s.close_result ≡ none)
          × (s.closing ≡ true)
          × (s.close_calls ≡ 1)
          × (s.returned ≡ []))
        ⊎ ((s.closed ≡ true)
            × (s.closing ≡ false)
            × (s.close_calls ≡ 1)
            × All (λ e. s.close_result ≡ some e) s.returned))

not_both : true ≡ false → ⊥
not_both h = cc

no_result : {e : Option Error} → none ≡ some e → ⊥
no_result h = cc

Step-IsSound : {s t : Server} → Step s t → IsSound s → IsSound t
unfolding begin_close finish_close await_close
Step-IsSound (entering s c) (inl h) = inr (inl (refl, h.1, refl, ap suc (h.3), h.4))
Step-IsSound (entering s c) (inr (inl h)) = absurd (not_both (sym (h.0) ∙ c))
Step-IsSound (entering s c) (inr (inr h)) = absurd (not_both (sym (h.0) ∙ c))
Step-IsSound (finishing e s c) (inl h) = absurd (not_both (sym c ∙ h.2))
Step-IsSound (finishing e s c) (inr (inl h)) = inr (inr (h.0, refl, h.3, (refl, rw (h.4) tt)))
Step-IsSound (finishing e s c) (inr (inr h)) = absurd (not_both (sym c ∙ h.1))
Step-IsSound (waiting e s c r) (inl h) = absurd (not_both (sym c ∙ h.0))
Step-IsSound (waiting e s c r) (inr (inl h)) = absurd (no_result (sym (h.1) ∙ r))
Step-IsSound (waiting e s c r) (inr (inr h)) = inr (inr (h.0, h.1, h.2, (r, h.3)))

Runs-IsSound : {s t : Server} → Runs s t → IsSound s → IsSound t
Runs-IsSound here h = h
Runs-IsSound (next s r) h = Runs-IsSound r (Step-IsSound s h)

IsSound-returned :
    (s : Server) → IsSound s → (s.close_calls ≤ 1) × All (λ e. s.close_result ≡ some e) s.returned
IsSound-returned s (inl h) = (omega (arith, h.3), rw (h.4) tt)
IsSound-returned s (inr (inl h)) = (omega (arith, h.3), rw (h.4) tt)
IsSound-returned s (inr (inr h)) = (omega (arith, h.2), h.3)

-- However calls of Close run beside each other, closeContext is called at most once, and every
-- Close that does not give up with its context returns the result of that one call.
pub Runs-close_result :
    (s : Server)
    → Runs new_server s
    → (s.close_calls ≤ 1) × All (λ e. s.close_result ≡ some e) s.returned
Runs-close_result s r = IsSound-returned s (Runs-IsSound r (inl (refl, refl, refl, refl, refl)))

Step-closed : {s t : Server} → Step s t → s.closed ≡ true → t.closed ≡ true
unfolding begin_close finish_close await_close
Step-closed (entering s c) h = refl
Step-closed (finishing e s c) h = h
Step-closed (waiting e s c r) h = h

Runs-closed : {s t : Server} → Runs s t → s.closed ≡ true → t.closed ≡ true
Runs-closed here h = h
Runs-closed (next s r) h = Runs-closed r (Step-closed s h)

closed_error :
    (context : Option Error) (t : Server)
    → t.closed ≡ true
    → operation_error context t ≡ some (sentinel closed)
unfolding operation_error
closed_error context t h = rw h refl

-- Once a Close has begun, AddGroup and GetServerStatus return ErrClosed ever after and do not reach
-- the connection, whatever their arguments and contexts are.
pub Runs-operation_error :
    (s t : Server)
    → Runs (begin_close s) t
    → (context : Option Error) (rate : ℤ) (add : ℤ → Result ℕ) (status : Result ℕ)
    → (add_group context rate add t ≡ err (sentinel closed))
      × (get_server_status context status t ≡ err (sentinel closed))
unfolding add_group get_server_status operation_error begin_close
Runs-operation_error s t r context rate add status =
    let shut = Runs-closed r refl in
    (
      rw (add_group, closed_error context t shut) refl,
      rw (get_server_status, closed_error context t shut) refl,
    )

-- The duration is a whole number of milliseconds from 1 to 2^32 - 1.
abbrev pub WholeMilliseconds : ℤ → Type 0
WholeMilliseconds d = (m : ℕ) × (1 ≤ m) × (m < 2 ^ 32) × (d ≡ ℤ.pos (m * 10 ^ 6))
