-- ===== src/Mmc/Sensors.antt =====
-- Library/MmcLib/MmcLib.c: the readings of the board's sensors. They differ in the request, in the
-- size of the array for the reply, and in the place of the reading in it.
use edk2_adlink_ampere_altra.Base.{ℕ, List}
use edk2_adlink_ampere_altra.Print.{codes}
use edk2_adlink_ampere_altra.Mmc.{Uart, NvParam, Reading, line, ask, copy_reply}

-- The sensors that have a function.
pub data Sensor : Type 0 where
  p3v3 p12v p5v p1v5_vddh p0v75_pcp p0v9_vddc_rca p0v75_vddc_soc p1v2_vddq_ab p1v2_vddq_cd : Sensor
  p1v8_pcp cpu_temp : Sensor

-- `IpmiCmdBuf`, `sizeof (xBuffer)` and the offset into `xBuffer` of each function.
abbrev pub request : Sensor → List ℕ
request p3v3 = line (codes "[10 04 2D 01]")
request p12v = line (codes "[10 08 2D 02]")
request p5v = line (codes "[10 0C 2D 03]")
request p1v5_vddh = line (codes "[10 10 2D 05]")
request p0v75_pcp = line (codes "[10 14 2D 06]")
request p0v9_vddc_rca = line (codes "[10 18 2D 07]")
request p0v75_vddc_soc = line (codes "[10 1C 2D 08]")
request p1v2_vddq_ab = line (codes "[10 20 2D 09]")
request p1v2_vddq_cd = line (codes "[10 24 2D 0A]")
request p1v8_pcp = line (codes "[10 28 2D 0B]")
request cpu_temp = line (codes "[10 2C 2D 0C]")

abbrev pub reply_size : Sensor → ℕ
reply_size p3v3 = 72
reply_size _ = 42

abbrev pub reading_offset : Sensor → ℕ
reading_offset p3v3 = 63
reading_offset _ = 33

module _ {W : Type 0} (uart : Uart W) (nv : NvParam W) where
  -- One of these functions. `stack` and `array` are what `Val` of GetFirmwareMajorVersion and
  -- `xBuffer` hold before the call; `buffer` and `buffer_size` are the arguments.
  abbrev pub SensorFunction : Type 0
  SensorFunction = (stack : ℕ) (array buffer : List ℕ) (buffer_size : ℕ) (w : W) → Reading W

  unfoldable pub sensor_reading : Sensor → SensorFunction
  sensor_reading s stack array buffer buffer_size w =
      ask uart nv (request s) (reply_size s) stack array buffer
        (copy_reply (reading_offset s) buffer_size buffer) w

  unfoldable pub ipmi_p3v3_sensor_reading : SensorFunction
  ipmi_p3v3_sensor_reading = sensor_reading p3v3

  unfoldable pub ipmi_p12v_sensor_reading : SensorFunction
  ipmi_p12v_sensor_reading = sensor_reading p12v

  unfoldable pub ipmi_p5v_sensor_reading : SensorFunction
  ipmi_p5v_sensor_reading = sensor_reading p5v

  unfoldable pub p1v5_vddh_sensor_reading : SensorFunction
  p1v5_vddh_sensor_reading = sensor_reading p1v5_vddh

  unfoldable pub p0v75_pcp_sensor_reading : SensorFunction
  p0v75_pcp_sensor_reading = sensor_reading p0v75_pcp

  unfoldable pub p0v9_vddc_rca_sensor_reading : SensorFunction
  p0v9_vddc_rca_sensor_reading = sensor_reading p0v9_vddc_rca

  unfoldable pub p0v75_vddc_soc_sensor_reading : SensorFunction
  p0v75_vddc_soc_sensor_reading = sensor_reading p0v75_vddc_soc

  unfoldable pub p1v2_vddq_ab_sensor_reading : SensorFunction
  p1v2_vddq_ab_sensor_reading = sensor_reading p1v2_vddq_ab

  unfoldable pub p1v2_vddq_cd_sensor_reading : SensorFunction
  p1v2_vddq_cd_sensor_reading = sensor_reading p1v2_vddq_cd

  unfoldable pub p1v8_pcp_sensor_reading : SensorFunction
  p1v8_pcp_sensor_reading = sensor_reading p1v8_pcp

  unfoldable pub cpu_temp_sensor_reading : SensorFunction
  cpu_temp_sensor_reading = sensor_reading cpu_temp
