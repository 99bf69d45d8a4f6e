-- ===== src/Images/Tests.antt =====
-- Runs of internal/host/erofs/vmdk.go on two devices.
use spinbox.Common.{some, List, [], ◌∷◌}
use spinbox.Images.{Device}

abbrev devices : List Device
devices =
    record { name = "layer.erofs"; size = some 5000 }
    ∷ record { name = "rw.img"; size = some 4096 }
    ∷ []
