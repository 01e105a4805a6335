-- ===== src/App/Handover/Finish.antt =====
-- The last lines of Service_Main, undisturbed, do to the service what `finish` of Service.Main says.
use univr_info_workshop.Common.{
  ℕ, ◌≡◌, ◌∙◌, refl, ap, sym, true, none, some, List, [], ◌∷◌, ok, put,
}
use univr_info_workshop.Error.{ErrorCode}
use univr_info_workshop.Service.Main.{Methods, Progress, call_hook, give_semaphore, finish}
use univr_info_workshop.App.Emulator.{Grant}
use univr_info_workshop.App.Handover.{World, Move, forget_queue, move, run, HasGiven}
use univr_info_workshop.App.Handover.Steps.{delete_task_lem, delete_queue_lem}

-- A task without a teardown hook whose semaphore can be given ends with the service that the three lines leave,
-- when `Task_Delete` of the running task comes back.
finish-run :
    {W : Type 0} (m : Methods W) (x : W) (w : World) (g : Grant) (name : List ℕ) (self p q sem : ℕ)
    → m.teardown_hook ≡ none
    → w.service.termination_semaphore ≡ some sem
    → HasGiven w self p q
    → (w' : World) × (run self g name
          (Move.deletes_task ∷ Move.deletes_queue ∷ Move.forgets_queue ∷ [])
          w
        ≡ ok w')
      × (finish m ErrorCode.success true w.service x ≡ ok (Progress.terminated w'.service x))
unfolding run move forget_queue finish
finish-run m x w g name self p q sem tears there given =
    let (a, ea, gone) = delete_task_lem w self self p given.task given.registry given.own in
    let (y, old) = given.there in
    let ec =
      delete_queue_lem a q (ap (λ s. s.queue) gone.service ∙ given.queue)
        (ap (λ h. h q) gone.queues ∙ old) in
    let hook = ap (λ o. call_hook o w.service x) tears in
    let given_back = ap (λ o. give_semaphore o ErrorCode.success) there in
    let forgotten =
      ap (λ s. ok (Progress.terminated (record s { queue = none }) x)) (sym gone.service) in
    (
      record a { queues = put a.queues q none; service = record a.service { queue = none } },
      rw (ea, ec) refl,
      rw (hook, given_back) forgotten,
    )
