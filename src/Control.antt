-- ===== src/Control.antt =====
-- src/application.cpp: the endless loop of `Application::run`, with `islocked` and the flags
-- `isRedirected` and `isDestroied` that keep a rule from being run twice. `Network` reads the state.
pub mod Phases
pub mod Filtered
pub mod Network
use faster_config.Base.{
  ℕ, Bool, true, false, not, ◌&&◌, ◌||◌, ◌==◌, if◌then◌else◌, List, [], ◌∷◌, ◌++◌,
}

-- `islocked`, of the number of paths that `glob` finds for the lock file.
unfoldable pub is_locked : ℕ → Bool
is_locked gl_pathc = gl_pathc == 1

-- What one pass of the loop reads: the paths found for the lock file, and the network status.
pub record Reading : Type 0 where
  pub gl_pathc : ℕ
  pub network_up : Bool

unfoldable pub locked : Reading → Bool
unfolding is_locked
locked r = is_locked r.gl_pathc || not r.network_up

pub record Flags : Type 0 where
  pub is_redirected : Bool
  pub is_destroied : Bool

-- The calls of the packet filter, in their order.
pub data Effect : Type 0 where
  destroy_rule redirect_dns redirect_http : Effect

abbrev pub start : Flags
start = record { is_redirected = false; is_destroied = true }

-- The first `if`: the flag of the other state is taken back.
unfoldable pub reset : Bool → Flags → Flags
reset true f = record {
  is_redirected = f.is_redirected;
  is_destroied = if f.is_redirected then false else f.is_destroied;
}
reset false f = record {
  is_redirected = if f.is_destroied then false else f.is_redirected;
  is_destroied = f.is_destroied;
}

-- The second and the third.
unfoldable pub act : Bool → Flags → Flags × List Effect
act false f =
    if not f.is_destroied
    then (record { is_redirected = f.is_redirected; is_destroied = true }, destroy_rule ∷ [])
    else (f, [])
act true f =
    if not f.is_redirected
    then (
      record { is_redirected = true; is_destroied = f.is_destroied },
      redirect_dns ∷ redirect_http ∷ [],
    )
    else (f, [])

-- One pass.
unfoldable pub pass : Bool → Flags → Flags × List Effect
unfolding act reset
pass l f = act l (reset l f)

-- The passes that a list of readings gives, with everything they call.
unfoldable pub run : List Reading → Flags → Flags × List Effect
run [] f = (f, [])
run (r ∷ rs) f = let (g, now) = pass (locked r) f in let (h, later) = run rs g in (h, now ++ later)
