-- ===== src/Limine/Requests.antt =====
-- The requests that the kernel leaves for the bootloader (src/limine.rs, src/limine/memmap.rs,
-- src/limine/execaddrs.rs).
use titanium.Base.{ℕ, Bool, List, [], ◌∷◌, ◌==◌}

-- `response` is the address of the answer, or 0 for null.
pub record RequestHeader : Type 0 where
  pub common : ℕ × ℕ
  pub subid : ℕ × ℕ
  pub revision : ℕ
  pub response : ℕ

-- `RequestHeader::id`
abbrev pub id : RequestHeader → List ℕ
id r = r.common.0 ∷ r.common.1 ∷ r.subid.0 ∷ r.subid.1 ∷ []

abbrev pub limine_common_magic : ℕ × ℕ
limine_common_magic = (0xc7b1dd30df4c8b88, 0x0a82e883a194f07b)

abbrev request : ℕ → ℕ → ℕ → RequestHeader
request a b revision = record {
  common = limine_common_magic;
  subid = (a, b);
  revision = revision;
  response = 0;
}

abbrev pub rsdp_request : RequestHeader
rsdp_request = request 0xc5e77b6b397e7b43 0x27637845accdcf3c 0

abbrev pub framebuffer_request : RequestHeader
framebuffer_request = request 0x9d5827dcd881dd75 0xa3148604f6fab11b 0

abbrev pub hhdm_request : RequestHeader
hhdm_request = request 0x48dcf1cb8ad2b852 0x63984e959a98244b 0

abbrev pub exec_addr_request : RequestHeader
exec_addr_request = request 0x71ba76863cc55f63 0xb2644a48c516a487 0

abbrev pub memmap_request : RequestHeader
memmap_request = request 0x67cf3d9d378a806f 0xe304acdfc50c3c62 0

pub data PagingMode : Type 0 where
  l4 l5 : PagingMode

abbrev pub mode_bits : PagingMode → ℕ
mode_bits l4 = 0
mode_bits l5 = 1

pub record PagingModeRequest : Type 0 where
  pub header : RequestHeader
  pub mode : ℕ
  pub max_mode : ℕ
  pub min_mode : ℕ

-- `PagingModeRequest::new`
abbrev pub paging_mode_request : PagingMode → PagingModeRequest
paging_mode_request mode = record {
  header = request 0x95c1a0edab0944cb 0xa4e5cb3842f7488a 1;
  mode = mode_bits mode;
  max_mode = mode_bits mode;
  min_mode = mode_bits mode;
}

-- `BASE_REVISION`, whose last word the bootloader sets to 0 where it supports the revision.
abbrev pub base_revision : ℕ × ℕ × ℕ
base_revision = (0xf9562b2d5c95a6c8, 0x6a7b384944536bdc, 6)

unfoldable pub is_base_revision_supported : ℕ × ℕ × ℕ → Bool
is_base_revision_supported revision = revision.2 == 0
