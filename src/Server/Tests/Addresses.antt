-- ===== src/Server/Tests/Addresses.antt =====
-- Allocations in the network of the two peers, and in one whose address has host bits set.
use meshezia.Common.{◌^◌, ◌*◌, arith, ◌*◌, ◌+◌, ◌-◌, codes, text_eq, some, ◌≡◌, refl}
use meshezia.Server.Tests.{db}
use meshezia.Server.Subnet.{
  Cidr, octets_to_int, total_hosts, used_addresses, address_text, first_free_address, allocate_ip,
}
use meshezia.Server.Subnet.Laws.{in_use, IsBlock, IsAllocated, allocate_ip-IsAllocated}

abbrev home : Cidr
home = record { o0 = 10; o1 = 100; o2 = 0; o3 = 0; prefix = 24 }

abbrev unaligned : Cidr
unaligned = record { o0 = 10; o1 = 100; o2 = 0; o3 = 255; prefix = 30 }

home-IsBlock : IsBlock home 680960
home-IsBlock = record { some_prefix = omega arith; fits = omega arith; begins = refl }

allocate_ip-IsAllocated_example :
    IsAllocated
      (2 ^ (32 - home.prefix) - 2)
      (680960 * 2 ^ (32 - home.prefix) + 1)
      (in_use (codes "n") db)
      (allocate_ip (codes "n") home db)
allocate_ip-IsAllocated_example = allocate_ip-IsAllocated (codes "n") home db 680960 home-IsBlock

second_address : allocate_ip (codes "n") home db ≡ some (codes "10.100.0.2")
unfolding allocate_ip octets_to_int total_hosts used_addresses first_free_address address_text
    text_eq
second_address = refl

-- 10.100.0.255/30 is the block from 10.100.0.252 on, which this address is not in.
outside_block : allocate_ip (codes "n") unaligned db ≡ some (codes "10.100.1.0")
unfolding allocate_ip octets_to_int total_hosts used_addresses first_free_address address_text
    text_eq
outside_block = refl
