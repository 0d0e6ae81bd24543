-- ===== src/Aws/Tests.antt =====
-- Concrete interleavings for components/aws-iot-comp.
use esp32sx_c_plus_wrappers.Base.{◌≢◌, ◌↔◌, arith, some}
use esp32sx_c_plus_wrappers.Aws.{
  connecting, asking_status, waiting, using_client, yielder, System, at_rest,
}
use esp32sx_c_plus_wrappers.Aws.Exclusion.{Overlaps, Overlaps-iff}

abbrev woken : System
woken = record at_rest { task = waiting }

-- The task uses the client, and no method has been called.
abbrev busy : System
busy = record woken { task = using_client; holder = some yielder }

Overlaps-iff_example : Overlaps connecting ↔ (connecting ≢ asking_status)
Overlaps-iff_example = Overlaps-iff connecting (λ e. ground arith)
