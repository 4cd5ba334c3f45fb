-- ===== src/Epoch/Quorum.antt =====
-- A publisher set between the epoch server and a reader: the requests of `update_epoch`
-- (epoch/src/publisher_set_updater.rs) and of `read_epoch` (epoch_reader/src/reader.rs) to each of its
-- publishers. What the network does with a request is chosen by the environment.
pub mod Intersection
use atomix.Base.{ℕ, Bool, true, false, Option, none, some, List, [], ◌∷◌}
use atomix.Epoch.Publisher
use atomix.Epoch.Publisher.{set_epoch}

-- A request is lost on its way, its answer is lost, or it is answered.
pub data Delivery : Type 0 where
  lost unheard answered : Delivery

-- One request: the publisher's epoch after it, and whether the caller got `Ok`.
unfoldable pub deliver : ℕ → ℕ → Delivery → ℕ × Bool
deliver epoch publisher lost = (publisher, false)
deliver epoch publisher unheard = ((set_epoch publisher epoch).0, false)
deliver epoch publisher answered = set_epoch publisher epoch

-- The requests of `update_epoch` to all publishers of a set.
unfoldable pub set_epochs : ℕ → List (ℕ × Delivery) → List (ℕ × Bool)
set_epochs epoch [] = []
set_epochs epoch ((publisher, delivery) ∷ ps) =
    deliver epoch publisher delivery ∷ set_epochs epoch ps

-- The answers that a reader gets; `false` marks a publisher whose answer does not arrive.
unfoldable pub read_epochs : List (ℕ × Bool) → List (Option ℕ)
read_epochs [] = []
read_epochs ((publisher, true) ∷ ps) = Publisher.read_epoch publisher ∷ read_epochs ps
read_epochs ((publisher, false) ∷ ps) = none ∷ read_epochs ps
