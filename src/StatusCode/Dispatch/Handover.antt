-- ===== src/StatusCode/Dispatch/Handover.antt =====
-- From the PEI phase to the DXE phase: no status code is lost while the HOB is not full.
use edk2_adlink_ampere_altra.Base.{
  ℕ, ◌≤◌, ◌<◌, ◌≡◌, refl, ◌∙◌, arith, List, [], ◌∷◌, true, some, length, last_n_short, Option-cases,
  inl, inr,
}
use edk2_adlink_ampere_altra.Print.{PrintLib}
use edk2_adlink_ampere_altra.Mmc.{Uart}
use edk2_adlink_ampere_altra.PostCode.{Properties}
use edk2_adlink_ampere_altra.StatusCode.Journal.{
  Layout, Entry, Packet, Table, capacity, pei_initialize, pei_report_all, rt_initialize, rt_report,
  rt_report_all, rt_read,
}
use edk2_adlink_ampere_altra.StatusCode.Journal.Runtime.{rt_report_all-rt_read}
use edk2_adlink_ampere_altra.StatusCode.Journal.Hob.{PeiFits, replayed_in_order}
use edk2_adlink_ampere_altra.StatusCode.Serial.{Services}
use edk2_adlink_ampere_altra.StatusCode.Dispatch.{
  Settings, Router, replay_serial, replay, initialization_dispatcher_worker,
}

-- Both workers and the replay are switched on.
abbrev pub all_on : ℕ → Settings
all_on size = record { use_serial = true; use_memory = true; replay_in = true; memory_size = size }

module _ {W : Type 0} (svc : Services W) (print : PrintLib) (uart : Uart W)
    (properties : Properties) (router : Router W) (layout : Layout) where
  -- The status codes sent to the serial port one after the other.
  unfoldable pub serial_all : Settings → List Entry → W → W
  serial_all settings [] w = w
  serial_all settings (e ∷ es) w =
      serial_all settings es (replay_serial svc print uart properties router layout settings e w)

  replay_lem :
      (settings : Settings) (es : List Entry) (t t' : Table) (w : W)
      → settings.use_memory ≡ true
      → rt_report_all t es ≡ some t'
      → replay svc print uart properties router layout settings es t w
        ≡ some (t', serial_all settings es w)
  unfolding replay rt_report_all serial_all
  replay_lem settings [] t t' w on runs = cc
  replay_lem settings (e ∷ es) t t' w on runs = elim (Option-cases (rt_report t e)) [
    | inl p ↦ ground (arith, p)
    | inr (t₁, p) ↦
        let w₁ = replay_serial svc print uart properties router layout settings e w in
        let rest = rw (p, rt_report_all) at runs in
        ground (arith, p, replay_lem settings es t₁ t' w₁ on rest)
  ]

  -- With both workers and the replay switched on, and a HOB in which the PEI phase reported a history
  -- shorter than the HOB has room for, the DXE driver's start writes inside the table's pool; the
  -- table then reads as that history, and the serial port got it code by code in the same order. The
  -- HOB's conditions are those of `PeiFits`; the table's pool was allocated, too.
  pub initialization_dispatcher_worker-handover :
      (size : ℕ) (history hob_memory memory : List Entry) (unset : Table) (w : W)
      → PeiFits layout size hob_memory history
      → length history < capacity layout size
      → capacity layout size ≤ length memory
      → (p : Packet) × (pei_report_all layout (pei_initialize layout size hob_memory) history
          ≡ some p)
        × ((t : Table) × (initialization_dispatcher_worker svc print uart properties router layout
                (all_on size)
                (some p)
                memory
                unset
                w
              ≡ some (t, serial_all (all_on size) history (router.serial_port_initialize w)))
            × (rt_read t ≡ history))
  unfolding initialization_dispatcher_worker
  initialization_dispatcher_worker-handover size history hob_memory memory unset w fits short pool =
      let (p, reported, same) = replayed_in_order layout size hob_memory history fits short in
      let (t, runs, reads) =
        rt_report_all-rt_read layout size memory history fits.some_room fits.wide pool
          (omega (arith, fits.wide)) in
      (
        p,
        reported,
        (
          t,
          rw same (
              replay_lem (all_on size) history (rt_initialize layout size memory) t
                (router.serial_port_initialize w) refl runs),
          reads ∙ last_n_short (capacity layout size) history (omega arith),
        ),
      )
