-- ===== src/Address/Tests.antt =====
-- Runs of the choice of an interface.
use general_tools.Common.{◌≡◌, refl, none, some, [], ◌∷◌, true, codes, text_eq}
use general_tools.Address.Own.{Interface, own_address, localhost, select, usable}

abbrev wired : Interface
wired = record {
  name = codes "eth0";
  is_inet = true;
  address = some (codes "10.0.0.7");
  broadcast = some (codes "10.0.0.255");
  netmask = some (codes "255.255.255.0");
  address_number = 117440522;
  netmask_number = 16777215;
}

own_address_runs :
    (own_address none (some (wired ∷ [])) ≡ localhost)
    × ((own_address
          (some (codes "eth0"))
          (some (record wired { netmask = none } ∷ wired ∷ []))).network
        ≡ 10)
    × (own_address (some (codes "wlan0")) (some (wired ∷ [])) ≡ localhost)
unfolding own_address select usable text_eq
own_address_runs = (refl, refl, refl)
