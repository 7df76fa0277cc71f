-- ===== src/Ufork/Constants.antt =====
-- vm/js/ufork.js: the constants. A raw value is the number of its 32 bits; an error code is an ℤ.
use u_fork.Prelude.{ℕ, ◌^◌}
use u_fork.Prelude.Int.{ℤ, pos, negsuc}

-- Type-tag bits.

abbrev pub msk_raw : ℕ
msk_raw = 0xF0000000

abbrev pub dir_raw : ℕ
dir_raw = 0x80000000

abbrev pub mut_raw : ℕ
mut_raw = 0x40000000

abbrev pub opq_raw : ℕ
opq_raw = 0x20000000

-- Reserved raw constants.

abbrev pub undef_raw : ℕ
undef_raw = 0

abbrev pub nil_raw : ℕ
nil_raw = 1

abbrev pub false_raw : ℕ
false_raw = 2

abbrev pub true_raw : ℕ
true_raw = 3

abbrev pub empty_dq : ℕ
empty_dq = 4

abbrev pub type_t : ℕ
type_t = 5

abbrev pub fixnum_t : ℕ
fixnum_t = 6

abbrev pub sponsor_t : ℕ
sponsor_t = 7

abbrev pub actor_t : ℕ
actor_t = 8

abbrev pub proxy_t : ℕ
proxy_t = 9

abbrev pub stub_t : ℕ
stub_t = 0xA

abbrev pub instr_t : ℕ
instr_t = 0xB

abbrev pub pair_t : ℕ
pair_t = 0xC

abbrev pub dict_t : ℕ
dict_t = 0xD

abbrev pub fwd_ref_t : ℕ
fwd_ref_t = 0xE

abbrev pub free_t : ℕ
free_t = 0xF

-- Instruction constants.

abbrev pub vm_debug : ℕ
vm_debug = 0x80000000

abbrev pub vm_jump : ℕ
vm_jump = 0x80000001

abbrev pub vm_push : ℕ
vm_push = 0x80000002

abbrev pub vm_if : ℕ
vm_if = 0x80000003

abbrev pub vm_typeq : ℕ
vm_typeq = 0x80000005

abbrev pub vm_eq : ℕ
vm_eq = 0x80000006

abbrev pub vm_assert : ℕ
vm_assert = 0x80000007

abbrev pub vm_sponsor : ℕ
vm_sponsor = 0x80000008

abbrev pub vm_actor : ℕ
vm_actor = 0x80000009

abbrev pub vm_dict : ℕ
vm_dict = 0x8000000A

abbrev pub vm_deque : ℕ
vm_deque = 0x8000000B

abbrev pub vm_alu : ℕ
vm_alu = 0x8000000D

abbrev pub vm_cmp : ℕ
vm_cmp = 0x8000000E

abbrev pub vm_end : ℕ
vm_end = 0x8000000F

abbrev pub vm_quad : ℕ
vm_quad = 0x80000010

abbrev pub vm_pair : ℕ
vm_pair = 0x80000011

abbrev pub vm_part : ℕ
vm_part = 0x80000012

abbrev pub vm_nth : ℕ
vm_nth = 0x80000013

abbrev pub vm_pick : ℕ
vm_pick = 0x80000014

abbrev pub vm_roll : ℕ
vm_roll = 0x80000015

abbrev pub vm_dup : ℕ
vm_dup = 0x80000016

abbrev pub vm_drop : ℕ
vm_drop = 0x80000017

abbrev pub vm_msg : ℕ
vm_msg = 0x80000018

abbrev pub vm_state : ℕ
vm_state = 0x80000019

-- Memory limits.

abbrev pub quad_rom_max : ℕ
quad_rom_max = 2 ^ 13

abbrev pub quad_ram_max : ℕ
quad_ram_max = 2 ^ 12

abbrev pub blob_ram_max : ℕ
blob_ram_max = 2 ^ 16

-- Memory layout.

abbrev pub memory_ofs : ℕ
memory_ofs = 0

abbrev pub ddeque_ofs : ℕ
ddeque_ofs = 1

abbrev pub debug_dev_ofs : ℕ
debug_dev_ofs = 2

abbrev pub clock_dev_ofs : ℕ
clock_dev_ofs = 3

abbrev pub timer_dev_ofs : ℕ
timer_dev_ofs = 4

abbrev pub io_dev_ofs : ℕ
io_dev_ofs = 5

abbrev pub blob_dev_ofs : ℕ
blob_dev_ofs = 6

abbrev pub random_dev_ofs : ℕ
random_dev_ofs = 7

abbrev pub host_dev_ofs : ℕ
host_dev_ofs = 13

abbrev pub quota_ofs : ℕ
quota_ofs = 14

abbrev pub sponsor_ofs : ℕ
sponsor_ofs = 15

-- Error codes.

abbrev pub e_ok : ℤ
e_ok = pos 0

abbrev pub e_fail : ℤ
e_fail = negsuc 0

abbrev pub e_bounds : ℤ
e_bounds = negsuc 1

abbrev pub e_no_mem : ℤ
e_no_mem = negsuc 2

abbrev pub e_not_fix : ℤ
e_not_fix = negsuc 3

abbrev pub e_not_cap : ℤ
e_not_cap = negsuc 4

abbrev pub e_not_ptr : ℤ
e_not_ptr = negsuc 5

abbrev pub e_not_rom : ℤ
e_not_rom = negsuc 6

abbrev pub e_not_ram : ℤ
e_not_ram = negsuc 7

abbrev pub e_not_exe : ℤ
e_not_exe = negsuc 8

abbrev pub e_no_type : ℤ
e_no_type = negsuc 9

abbrev pub e_mem_lim : ℤ
e_mem_lim = negsuc 10

abbrev pub e_cpu_lim : ℤ
e_cpu_lim = negsuc 11

abbrev pub e_msg_lim : ℤ
e_msg_lim = negsuc 12

abbrev pub e_assert : ℤ
e_assert = negsuc 13

abbrev pub e_stop : ℤ
e_stop = negsuc 14

abbrev pub e_abort : ℤ
e_abort = negsuc 15
