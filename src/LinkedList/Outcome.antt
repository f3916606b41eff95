-- ===== src/LinkedList/Outcome.antt =====
-- What an operation of gps/utils/linked_list.c leaves behind.
use android_device_lenovo_a.Base.{◌≡◌, Option, List}
use android_device_lenovo_a.LinkedList.Memory.{Memory}
use android_device_lenovo_a.LinkedList.Ops.{ListState}
use android_device_lenovo_a.LinkedList.Spec.{Item, Listed, SameOutside}

module _ {S : Type 0} where
  -- The outcome of an operation that leaves the rest of the state alone: the error, the handle, the
  -- items, and that no address but those of `touched` changed.
  pub record Outcome (m : Memory S) (xs touched : List (Item S)) (l : Option ListState)
      (m' : Memory S) : Type 0 where
    pub listed : Listed m'.cells l xs
    pub env : m'.env ≡ m.env
    pub same : SameOutside touched m.cells m'.cells
