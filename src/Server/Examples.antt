-- ===== src/Server/Examples.antt =====
-- The theorems on a server and its closing at concrete inputs.
use gopcda.Prelude.{ℕ, ◌≤◌, ◌≡◌, refl, none, some, All}
use gopcda.Prelude.Int.{ℤ}
use gopcda.Errors.{sentinel, closed, cancelled}
use gopcda.Result.{ok, err}
use gopcda.Server.{
  Server, new_server, begin_close, finish_close, await_close, add_group, get_server_status,
}
use gopcda.Server.Closing.{
  Runs, here, next, entering, finishing, waiting, Runs-close_result, Runs-operation_error,
}

-- One Close fails with an error, and another one waits for it.
abbrev closed_twice : Server
closed_twice = await_close (some cancelled) (finish_close (some cancelled) (begin_close new_server))

closing_twice : Runs new_server closed_twice
unfolding begin_close finish_close
closing_twice = next (entering new_server refl) (
    next (finishing (some cancelled) (begin_close new_server) refl) (
      next
        (waiting (some cancelled) (finish_close (some cancelled) (begin_close new_server)) refl
          refl)
        here))

Runs-close_result_example :
    (closed_twice.close_calls ≤ 1)
    × All (λ e. closed_twice.close_result ≡ some e) closed_twice.returned
Runs-close_result_example = Runs-close_result closed_twice closing_twice

finished : Runs (begin_close new_server) (finish_close none (begin_close new_server))
unfolding begin_close
finished = next (finishing none (begin_close new_server) refl) here

Runs-operation_error_example :
    (add_group none (ℤ.pos 1000000) (λ rate. ok 1) (finish_close none (begin_close new_server))
      ≡ err (sentinel closed))
    × (get_server_status {A = ℕ} none (ok 3) (finish_close none (begin_close new_server))
        ≡ err (sentinel closed))
Runs-operation_error_example =
    Runs-operation_error new_server (finish_close none (begin_close new_server)) finished none
      (ℤ.pos 1000000) (λ rate. ok 1) (ok 3)
