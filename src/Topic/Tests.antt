-- ===== src/Topic/Tests.antt =====
-- Runs of the full name.
use general_tools.Common.{◌≡◌, refl, codes}
use general_tools.Topic.{str, append_part}

str_runs :
    (str (record { device_name = codes "robot"; node_name = codes "cam"; topic = codes "image" })
      ≡ codes "robot/cam/image")
    × (str (record { device_name = codes ""; node_name = codes "cam/"; topic = codes "image" })
        ≡ codes "cam/image")
unfolding str append_part
str_runs = (refl, refl)
