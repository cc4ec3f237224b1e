-- ===== src/Server.antt =====
-- server.go: connect, AddGroup, GetServerStatus, operationError and Close of Server. Close is called
-- from several goroutines, and is given in the pieces that the mutex keeps apart.
pub mod Closing
pub mod Examples
use gopcda.Prelude.{
  ℕ, suc, ◌+◌, ◌*◌, ◌/◌, ◌%◌, ◌^◌, Bool, true, false, not, ◌&&◌, ◌||◌, Option, none, some, List, [],
  ◌∷◌, leb, ltb, ◌==◌, if◌then◌else◌,
}
use gopcda.Prelude.Int.{ℤ}
use gopcda.Prelude.Bytes.{Bytes}
use gopcda.Errors.{Error, sentinel, closed, message, wrapped, joined}
use gopcda.Result.{Result, ok, err}
use gopcda.Group.State.{Reply, failed, answered}

-- Server: `closed`, and closeErr once closeDone is closed. Beside them, whether a Close is between
-- its two critical sections, how often closeContext was called, and what the calls of Close have
-- returned that did not give up.
pub record Server : Type 0 where
  pub closed : Bool
  pub close_result : Option (Option Error)
  pub closing : Bool
  pub close_calls : ℕ
  pub returned : List (Option Error)

abbrev pub new_server : Server
new_server = record {
  closed = false;
  close_result = none;
  closing = false;
  close_calls = 0;
  returned = [];
}

-- connect: what it returns, and the connections whose closeContext it called.
unfoldable pub connect :
    Option Error → Reply ℕ → Option Error → Option Error → Result Server × List ℕ
connect (some e) dialled late clean = (err e, [])
connect none (failed e) late clean = (err (wrapped "opcda: connect %s" e), [])
connect none (answered conn) none clean = (ok new_server, [])
connect none (answered conn) (some e) none = (err e, conn ∷ [])
connect none (answered conn) (some e) (some f) = (err (joined e f), conn ∷ [])

-- operationError; the context has ended if the lifetime of the server has.
unfoldable pub operation_error : Option Error → Server → Option Error
operation_error context s = if s.closed then some (sentinel closed) else context

-- The test of AddGroup on an update rate of a Duration.
unfoldable pub bad_update_rate : ℤ → Bool
bad_update_rate (ℤ.negsuc n) = true
bad_update_rate (ℤ.pos n) = n == 0 || (not (n % 10 ^ 6 == 0) || leb (2 ^ 32) (n / 10 ^ 6))

-- updateRate.Milliseconds() of a positive Duration.
abbrev pub milliseconds : ℤ → ℤ
milliseconds (ℤ.pos n) = ℤ.pos (n / 10 ^ 6)
milliseconds (ℤ.negsuc n) = ℤ.negsuc (n / 10 ^ 6)

-- AddGroup, where addGroup of the connection takes the rate in milliseconds.
unfoldable pub add_group : Option Error → ℤ → (ℤ → Result ℕ) → Server → Result ℕ
unfolding operation_error bad_update_rate
add_group context rate add s = elim (operation_error context s) [
  | some e ↦ err e
  | none ↦
      if bad_update_rate rate
      then err (message "opcda: invalid group update rate %s")
      else elim (add (milliseconds rate)) [
        | err e ↦ err (wrapped "opcda: add group %q" e)
        | ok id ↦ ok id
      ]
]

-- GetServerStatus
unfoldable pub get_server_status {ℓ} : {A : Type ℓ} → Option Error → Result A → Server → Result A
unfolding operation_error
get_server_status context status s = elim (operation_error context s) [
  | some e ↦ err e
  | none ↦ status
]

-- The first critical section of a Close that finds the server open, and the call of closeContext.
unfoldable pub begin_close : Server → Server
begin_close s = record s { closed = true; closing = true; close_calls = suc s.close_calls }

-- The second one: closeErr, and the return.
unfoldable pub finish_close : Option Error → Server → Server
finish_close e s = record s { closing = false; close_result = some e; returned = e ∷ s.returned }

-- A Close that found the server closed and has waited for closeDone.
unfoldable pub await_close : Option Error → Server → Server
await_close e s = record s { returned = e ∷ s.returned }
