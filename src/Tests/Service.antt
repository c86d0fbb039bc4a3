-- ===== src/Tests/Service.antt =====
-- Runs of packages/service/service-runtime.
use predictor_common.Prelude.Text.{codes}
use predictor_common.Prelude.{◌≡◌, refl, inr, true, false, some, [], ◌∷◌, arith}
use predictor_common.Service.Probe
use predictor_common.Service.Probe.{
  probed, checked, cached, new_log, probe, IsRecent, probe-IsSound, probe-cached,
}
use predictor_common.Service.TickLoop
use predictor_common.Service.TickLoop.{
  starts, stops, fires, settles, new_loop, IsDrained, IsOver, tick_loop-IsSound, stop_drains,
  stop_fulfilled,
}
use predictor_common.Service.Shutdown
use predictor_common.Service.Shutdown.{
  signalled, drained, timed_out, running, outcome, first_signal, shutdown_once,
}

probe-IsSound_example :
    Probe.IsSound 30
      (Probe.observe_all 30 new_log (probed 1 ∷ checked (some true) 4 ∷ probed 50 ∷ []))
probe-IsSound_example = probe-IsSound 30 (probed 1 ∷ checked (some true) 4 ∷ probed 50 ∷ [])

answered :
    (probe 30 20 (Probe.observe_all 30 new_log (probed 1 ∷ checked (some true) 4 ∷ [])).state).1
    ≡ cached true
unfolding Probe.observe_all probe
answered = refl

tick_loop-IsSound_example :
    TickLoop.IsSound (TickLoop.observe_all new_loop (starts ∷ fires ∷ settles true ∷ fires ∷ []))
tick_loop-IsSound_example = tick_loop-IsSound (starts ∷ fires ∷ settles true ∷ fires ∷ [])

stop_drains_example :
    IsOver (TickLoop.observe_all new_loop (starts ∷ stops ∷ settles false ∷ [])).started (
      TickLoop.observe_all
        (TickLoop.observe_all new_loop (starts ∷ stops ∷ settles false ∷ []))
        (starts ∷ fires ∷ []))
unfolding TickLoop.observe_all
stop_drains_example =
    stop_drains (starts ∷ stops ∷ settles false ∷ []) (starts ∷ fires ∷ []) refl
      (inr (0, refl, omega arith))

stop_fulfilled_example : IsDrained (
    TickLoop.observe_all
      (TickLoop.observe_all new_loop (starts ∷ stops ∷ []))
      (fires ∷ settles true ∷ starts ∷ []))
unfolding TickLoop.observe_all
stop_fulfilled_example = stop_fulfilled (starts ∷ stops ∷ []) (fires ∷ []) (starts ∷ []) true refl

shutdown_once_example :
    Shutdown.observe_all
      (some 5)
      running
      (signalled (codes "SIGTERM") ∷ signalled (codes "SIGINT") ∷ timed_out ∷ drained ∷ [])
    ≡ outcome (some 5) (
        first_signal
          (signalled (codes "SIGTERM") ∷ signalled (codes "SIGINT") ∷ timed_out ∷ drained ∷ []))
shutdown_once_example =
    shutdown_once (some 5)
      (signalled (codes "SIGTERM") ∷ signalled (codes "SIGINT") ∷ timed_out ∷ drained ∷ [])
