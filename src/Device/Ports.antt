-- ===== src/Device/Ports.antt =====
-- makePorts of cpp/src/simulated_ocs_device.cpp.
use mini_ocs_nos.Base.{
  ℕ, zero, suc, ◌+◌, ◌%◌, ◌≤◌, ◌<◌, ◌≡◌, refl, ap, none, some, List, [], ◌∷◌, arith, length,
  get_elem?,
}
use mini_ocs_nos.Base.Outcome.{returns}
use mini_ocs_nos.DeviceTypes.{PortDirection, PortState}
use mini_ocs_nos.Device.State.{make_ports_loop, make_ports, fresh_port}

-- `n` fresh ports with consecutive ids from `id`.
abbrev pub ports_from : PortDirection → ℕ → ℕ → List PortState
ports_from direction id zero = []
ports_from direction id (suc n) = fresh_port direction id ∷ ports_from direction (id + 1) n

make_ports_loop-ports_from :
    (n fuel : ℕ) (direction : PortDirection) (id count : ℕ)
    → n < fuel
    → id + n ≡ count + 1
    → count < 65535
    → make_ports_loop fuel direction id count ≡ some (ports_from direction id n)
unfolding make_ports_loop
make_ports_loop-ports_from n zero direction id count h e b = elim h [ ]
make_ports_loop-ports_from zero (suc fuel) direction id count h e b = ground arith
make_ports_loop-ports_from (suc n) (suc fuel) direction id count h e b =
    let wrapped : (id + 1) % 65536 ≡ id + 1 = omega arith in
    let rest =
      make_ports_loop-ports_from n fuel direction (id + 1) count (omega arith) (omega arith) b in
    ground (arith, rest, wrapped, ap (λ (i : ℕ). make_ports_loop fuel direction i count) wrapped)

pub length-ports_from :
    (direction : PortDirection) (id n : ℕ) → length (ports_from direction id n) ≡ n
length-ports_from direction id zero = refl
length-ports_from direction id (suc n) = ap suc (length-ports_from direction (id + 1) n)

pub get_elem?-ports_from :
    (direction : PortDirection) (id n i : ℕ)
    → i < n
    → get_elem? (ports_from direction id n) i ≡ some (fresh_port direction (id + i))
get_elem?-ports_from direction id zero i h = elim h [ ]
get_elem?-ports_from direction id (suc n) zero h = ground arith
get_elem?-ports_from direction id (suc n) (suc i) h =
    ground (arith, get_elem?-ports_from direction (id + 1) n i)

-- Below 65535 ports, makePorts ends and returns the ports 1 to count, enabled and up.
pub make_ports-returns :
    (direction : PortDirection) (count : ℕ)
    → count < 65535
    → make_ports direction count ≡ returns (ports_from direction 1 count)
unfolding make_ports
make_ports-returns direction count h = ground (
  arith,
  make_ports_loop-ports_from count (suc count) direction 1 count (omega arith) (omega arith) h,
)

-- At 65535 ports, the largest value of the type, the uint16_t loop variable wraps from 65535 to 0
-- before it can pass the count: however long the loop of makePorts runs, from any id, it has not
-- ended.
pub make_ports_loop_endless :
    (fuel : ℕ) (direction : PortDirection) (id : ℕ)
    → id ≤ 65535
    → make_ports_loop fuel direction id 65535 ≡ none
unfolding make_ports_loop
make_ports_loop_endless zero direction id h = refl
make_ports_loop_endless (suc fuel) direction id h =
    ground (arith, make_ports_loop_endless fuel direction ((id + 1) % 65536) (omega arith))
