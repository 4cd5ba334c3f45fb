-- ===== src/Epoch/Publisher/Races.antt =====
-- `set_epoch` alone and in parallel.
use atomix.Base.{ℕ, ◌≡◌, ◌≢◌, ◌<◌, ◌≤◌, ◌⊎◌, true, false, max, arith}
use atomix.Epoch.Storage.{compare_exchange}
use atomix.Epoch.Publisher.{loaded, begin_set, finish_set, set_epoch}

-- A call with no other between its steps fails before the first sync and changes nothing; later it
-- answers `Ok` and leaves the greater of the two epochs.
pub set_epoch_lem :
    (epoch new_epoch : ℕ)
    → ((epoch ≡ 0) × (set_epoch epoch new_epoch ≡ (epoch, false)))
      ⊎ ((epoch ≢ 0)
          × ((set_epoch epoch new_epoch).1 ≡ true)
          × ((set_epoch epoch new_epoch).0 ≡ max epoch new_epoch))
unfolding set_epoch begin_set finish_set compare_exchange
set_epoch_lem epoch new_epoch = ground arith

-- However the steps of the calls interleave, an epoch never falls: the second step of a call that
-- loaded any epoch leaves at least what it finds.
pub finish_set-monotone :
    (epoch current_epoch new_epoch : ℕ) → epoch ≤ (finish_set epoch current_epoch new_epoch).0
unfolding finish_set compare_exchange
finish_set-monotone epoch current_epoch new_epoch = ground arith

-- Two calls that load the same epoch and ask for greater ones, in whichever order they exchange: both
-- answer `Ok`, and the publisher has the epoch of the one that exchanges first, also if that of the
-- other is the greater.
pub set_epoch_lost :
    (epoch first second : ℕ)
    → epoch ≢ 0
    → epoch < first
    → epoch < second
    → let once = finish_set epoch epoch first in
      let twice = finish_set once.0 epoch second in
      (begin_set epoch first ≡ loaded epoch first)
      × (begin_set epoch second ≡ loaded epoch second)
      × (once ≡ (first, true))
      × (twice ≡ (first, true))
unfolding begin_set finish_set compare_exchange
set_epoch_lost epoch first second p q r = ground arith
