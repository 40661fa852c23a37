-- ===== src/Entry/Reloads.antt =====
-- Whether a reload reaches the balancer, in src/main.rs.
use trakt.Base.{◌≡◌, refl, sym, ◌∙◌, ◌≢◌, ◌⊎◌, inl, inr, Bool, true, false, Option, none, some}
use trakt.Config.{RootConfig}
use trakt.Config.Provider.{new_provider, reload}
use trakt.Entry.{
  Loop, before_select, selecting, woken, loading, restarting, saving, exited, Program, wake,
  on_reload, on_ctrl_c, on_saved, on_load,
}
use trakt.Entry.Steps.{
  begun, Own, select, load, load_end, restart_end, save_end, in_select, Calm, calm_stay, calm_own,
  calm_reload, calm_interrupt,
}

-- The balancer has loaded the configuration, or the loop is about to have it do so.
abbrev Applied : Program → Type 0
Applied p = (p.loop ≡ woken) ⊎ (p.loaded ≡ p.provider.config)

-- Where the loop is not woken, the configuration is loaded.
loaded_then :
    (p : Program) (l : Loop) → l ≢ woken → p.loop ≡ l → Applied p → p.loaded ≡ p.provider.config
loaded_then p l ne e (inl is_woken) = absurd (ne (sym e ∙ is_woken))
loaded_then p l ne e (inr same) = same

Own-Applied : (p q : Program) → Applied p → Own p q → Applied q
unfolding on_saved on_load
Own-Applied p q h (select _ e) = inr (loaded_then p before_select (λ c. cc) e h)
Own-Applied p q h (load _ e) = inr refl
Own-Applied p q h (load_end _ e) = inr (loaded_then p loading (λ c. cc) e h)
Own-Applied p q h (restart_end _ e) = inr (loaded_then p restarting (λ c. cc) e h)
Own-Applied p q h (save_end b _ e) = inr (loaded_then p saving (λ c. cc) e h)

reload-Applied :
    (file : Option RootConfig) (p : Program)
    → Applied p
    → in_select p.loop ≡ true
    → Applied (on_reload file p)
unfolding on_reload reload
reload-Applied none p h at_select = h
reload-Applied (some config) p h at_select = inl (woken_up p.loop at_select)
  where
    woken_up : (l : Loop) → in_select l ≡ true → wake true l ≡ woken
    woken_up selecting e = refl
    woken_up woken e = refl
    woken_up l e = absurd cc

Calm-Applied : (config : RootConfig) (p q : Program) → p ≡ begun config → Calm p q → Applied q
unfolding on_ctrl_c
Calm-Applied config p q e (calm_stay _) = rw e (inr refl)
Calm-Applied config p q e (calm_own _ r _ before w) =
    Own-Applied r q (Calm-Applied config p r e before) w
Calm-Applied config p q e (calm_reload _ r file before at_select) =
    reload-Applied file r (Calm-Applied config p r e before) at_select
Calm-Applied config p q e (calm_interrupt _ r before at) =
    inr (loaded_then r selecting (λ c. cc) at (Calm-Applied config p r e before))

-- As long as every reload finds the loop at its `select!`, and no signal comes between a reload and
-- the loop's answer to it, the balancer has loaded the latest configuration whenever the loop waits.
pub reloads_applied :
    (config : RootConfig) (p : Program)
    → Calm (begun config) p
    → p.loop ≡ selecting
    → p.loaded ≡ p.provider.config
reloads_applied config p run e =
    loaded_then p selecting (λ c. cc) e (Calm-Applied config _ p refl run)

-- The configuration changed while the loop was away.
abbrev pub lost : RootConfig → RootConfig → Program
lost old new = record {
  provider = new_provider new;
  loaded = old;
  loop = selecting;
  shutdown_requests = 0;
}

-- The loop is not about to load anything.
abbrev resting : Loop → Bool
resting before_select = true
resting selecting = true
resting saving = true
resting (exited code) = true
resting _ = false

abbrev Stale : RootConfig → RootConfig → Program → Type 0
Stale old new p = (resting p.loop ≡ true) × (p.provider.config ≡ new) × (p.loaded ≡ old)
