-- ===== src/Tests/Setup.antt =====
-- Service classes and interfaces.
use rahunas.Interfaces.Reserve.{
  Lowest, ifb_interface_reserve-Lowest, ifb_interface_reserve-undefined,
}
use rahunas.Interfaces.{Interface, undefined, ifb_interface_reserve}
use rahunas.Prelude.{
  ℕ, passes, passes_lem, ◌≡◌, refl, true, false, List, [], ◌∷◌, none, some, arith,
}
use rahunas.ServiceClass.Registry.Cleanup.{DistinctNumbers}
use rahunas.ServiceClass.Registry.{sc_none, sc_reset, sc_done}
use rahunas.ServiceClass.{ServiceClassConfig, ServiceClass}
use rahunas.Session.Slots.{has_bit}
use rahunas.Text.{codes}

abbrev gold : ServiceClassConfig
gold = record {
  serviceclass_name = codes "gold";
  serviceclass_id = 1;
  init_flag = sc_done;
  description = none;
  network = none;
  start_addr = 0;
  network_size = 0;
  fake_arpd = none;
  fake_arpd_iface = none;
}

abbrev silver : ServiceClassConfig
silver = record c { serviceclass_name = codes "silver"; serviceclass_id = 2; init_flag = sc_none }
  where
    c : ServiceClassConfig
    c = gold

abbrev two_classes : List ServiceClass
two_classes =
    (record { serviceclass_config = gold; dummy_config = none })
    ∷ (record { serviceclass_config = silver; dummy_config = none })
    ∷ []

two_classes-Distinct : DistinctNumbers two_classes
two_classes-Distinct = ((omega arith, tt), (tt, tt))

abbrev renamed : ServiceClass
renamed = record {
  serviceclass_config = record c { init_flag = sc_reset };
  dummy_config = some silver;
}
  where
    c : ServiceClassConfig
    c = gold

abbrev eth1 : Interface
eth1 = record { dev_internal = codes "eth1"; dev_ifb = codes "ifb0"; hit = 1; init = 1 }

first_free : has_bit 1 1 ≡ false
unfolding has_bit
first_free = refl

ifb_interface_reserve-Lowest_example : Lowest 1 (ifb_interface_reserve 1)
ifb_interface_reserve-Lowest_example = ifb_interface_reserve-Lowest 1 1 (omega arith) first_free

-- All of the first 31 bits.
abbrev all_taken : ℕ
all_taken = 2147483647

all_taken_table : passes (has_bit all_taken) 31 ≡ true
unfolding passes has_bit
all_taken_table = refl

ifb_interface_reserve-undefined_example : ifb_interface_reserve all_taken ≡ undefined
ifb_interface_reserve-undefined_example =
    ifb_interface_reserve-undefined all_taken
      (λ k lt. passes_lem (has_bit all_taken) 31 k lt all_taken_table)
