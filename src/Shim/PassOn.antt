-- ===== src/Shim/PassOn.antt =====
-- The RPCs of internal/shim/task/service.go that are passed on to the guest, whose answer is an
-- argument, and the one that is not supported.
use spinbox.Common.{ℕ, Option}
use spinbox.Shim.Service.{Result, err, not_implemented, Service, admitted, with_task_client}

module _ {A : Type 0} where
  unfoldable pub pass_on : Option ℕ → Result A → Service → Service × Result A
  unfolding with_task_client
  pass_on dial guest s = admitted (with_task_client dial (λ s'. (s', guest))) s

  unfoldable pub kill : Option ℕ → Result A → Service → Service × Result A
  unfolding pass_on
  kill = pass_on

  unfoldable pub pids : Option ℕ → Result A → Service → Service × Result A
  unfolding pass_on
  pids = pass_on

  unfoldable pub resize_pty : Option ℕ → Result A → Service → Service × Result A
  unfolding pass_on
  resize_pty = pass_on

  unfoldable pub update : Option ℕ → Result A → Service → Service × Result A
  unfolding pass_on
  update = pass_on

  unfoldable pub wait : Option ℕ → Result A → Service → Service × Result A
  unfolding pass_on
  wait = pass_on

  unfoldable pub stats : Option ℕ → Result A → Service → Service × Result A
  unfolding pass_on
  stats = pass_on

  unfoldable pub checkpoint : Service → Service × Result A
  checkpoint s = admitted (λ s'. (s', err not_implemented)) s
