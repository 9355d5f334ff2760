-- ===== src/Topology/Cidr.antt =====
-- IPv4 networks: `cidr` and `inside` of packages/lab-support/cpp/contracts.cpp. The address of a text is
-- `inet_pton`, a parameter. A mask of a prefix of `p` bits leaves the low `32 - p` bits out.
use Prim.Native.String.{String}
use graphlab.Prelude.{ℕ, ◌+◌, ◌-◌, ◌*◌, ◌/◌, ◌^◌, Bool, Option, none, some, ◌==◌, ok, err}
use graphlab.Topology.Json.{Check, validation_error}
use graphlab.Topology.Names.{split_at, prefix_length}

pub record Cidr : Type 0 where
  pub ip : ℕ
  pub prefix : ℕ

-- The number of addresses that differ in the low bits only.
abbrev pub size_of : Cidr → ℕ
size_of c = 2 ^ (32 - c.prefix)

-- `x & c.mask`
abbrev pub masked : ℕ → Cidr → ℕ
masked x c = x / size_of c * size_of c

-- `c.ip | ~c.mask`
abbrev pub last_of : Cidr → ℕ
last_of c = masked c.ip c + (size_of c - 1)

abbrev pub inside : Cidr → Cidr → Bool
inside a b = masked a.ip b == masked b.ip b

abbrev made : Option ℕ → Option ℕ → Check Cidr
made (some ip) (some p) = ok (record { ip = ip; prefix = p })
made _ _ = err validation_error

abbrev of_parts : (String → Option ℕ) → Option (String × String) → Check Cidr
of_parts inet_pton none = err validation_error
of_parts inet_pton (some (a, p)) = made (inet_pton a) (prefix_length p)

unfoldable pub cidr : (String → Option ℕ) → String → Check Cidr
unfolding split_at prefix_length
cidr inet_pton s = of_parts inet_pton (split_at b'/' s)

abbrev of_address : ℕ → Option ℕ → Check Cidr
of_address p none = err validation_error
of_address p (some ip) = ok (record { ip = ip; prefix = p })

abbrev without_slash : (String → Option ℕ) → ℕ → String → Option (String × String) → Check Cidr
without_slash inet_pton p s none = of_address p (inet_pton s)
without_slash inet_pton p s (some x) = err validation_error

-- `cidr` on an address behind which `/` and the length of a prefix were put: an address that has a
-- slash itself leaves no number behind the first one.
unfoldable pub cidr_of : (String → Option ℕ) → String → ℕ → Check Cidr
unfolding split_at
cidr_of inet_pton s p = without_slash inet_pton p s (split_at b'/' s)
