-- ===== src/StatusCode/Dispatch.antt =====
-- RuntimeDxe/StatusCodeHandlerRuntimeDxe.c and Pei/StatusCodeHandlerPei.c: what the two drivers set up,
-- and the replay of the status codes of the PEI phase to the workers of the DXE phase.
-- InstallConfigurationTable and the other statuses that are only asserted are not modelled.
pub mod Handover
use edk2_adlink_ampere_altra.Base.{
  ℕ, List, [], ◌∷◌, Bool, true, false, Option, none, some, if◌then◌else◌, Status, success,
}
use edk2_adlink_ampere_altra.Print.{PrintLib}
use edk2_adlink_ampere_altra.Mmc.{Uart}
use edk2_adlink_ampere_altra.PostCode.{Properties}
use edk2_adlink_ampere_altra.StatusCode.Journal.{
  Layout, Entry, Packet, Table, pei_initialize, rt_initialize, rt_report, replayed,
}
use edk2_adlink_ampere_altra.StatusCode.Serial.{Services, dxe_serial_report}

-- PcdStatusCodeUseSerial, PcdStatusCodeUseMemory, PcdStatusCodeReplayIn, PcdStatusCodeMemorySize
pub record Settings : Type 0 where
  pub use_serial : Bool
  pub use_memory : Bool
  pub replay_in : Bool
  pub memory_size : ℕ

-- The workers that a driver registers with the router, in order.
pub data Worker : Type 0 where
  serial_worker memory_worker : Worker

-- SerialPortInitialize and the router's Register.
pub record Router (W : Type 0) : Type 0 where
  pub serial_port_initialize : W → W
  pub register : Worker → W → W

module _ {W : Type 0} (svc : Services W) (print : PrintLib) (uart : Uart W)
    (properties : Properties) (router : Router W) (layout : Layout) (settings : Settings) where
  open settings use {use_serial, use_memory, replay_in, memory_size}

  -- The body of the replay loop for the serial port; there is no caller and no data.
  unfoldable pub replay_serial : Entry → W → W
  replay_serial e w =
      if use_serial
      then (dxe_serial_report svc print uart properties use_serial e.code_type e.value
          e.instance_number none none w).1
      else w

  -- The replay loop: each record to the serial port, and then to the table. `none` stands for a write
  -- outside of the table's pool.
  unfoldable pub replay : List Entry → Table → W → Option (Table × W)
  unfolding replay_serial
  replay [] t w = some (t, w)
  replay (e ∷ es) t w = elim (if use_memory then rt_report t e else some t) [
    | none ↦ none
    | some t' ↦ replay es t' (replay_serial e w)
  ]

  -- InitializationDispatcherWorker. `hob` is what GetFirstGuidHob finds, `memory` what the pool of
  -- the table holds before it is set up, and `unset` the table's state if it is not.
  unfoldable pub initialization_dispatcher_worker :
      Option Packet → List Entry → Table → W → Option (Table × W)
  initialization_dispatcher_worker hob memory unset w =
      let w₁ = if use_serial then router.serial_port_initialize w else w in
      let t = if use_memory then rt_initialize layout memory_size memory else unset in
      if replay_in
      then elim hob [ none ↦ some (t, w₁) | some p ↦ replay (replayed p) t w₁ ]
      else some (t, w₁)

  -- StatusCodeHandlerPeiEntry: the HOB, if there is one, and the world.
  unfoldable pub status_code_handler_pei_entry : List Entry → W → Status × Option Packet × W
  status_code_handler_pei_entry memory w =
      let w₁ =
        if use_serial then router.register serial_worker (router.serial_port_initialize w) else w in
      (
        success,
        if use_memory then some (pei_initialize layout memory_size memory) else none,
        if use_memory then router.register memory_worker w₁ else w₁,
      )

  -- StatusCodeHandlerRuntimeDxeEntry, with the event for the virtual address map left out.
  unfoldable pub status_code_handler_runtime_dxe_entry :
      Option Packet → List Entry → Table → W → Option (Status × Table × W)
  unfolding initialization_dispatcher_worker
  status_code_handler_runtime_dxe_entry hob memory unset w =
      elim (initialization_dispatcher_worker hob memory unset w) [
        | none ↦ none
        | some (t, w₁) ↦
            let w₂ = if use_serial then router.register serial_worker w₁ else w₁ in
            some (success, t, if use_memory then router.register memory_worker w₂ else w₂)
      ]
