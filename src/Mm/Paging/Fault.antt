-- ===== src/Mm/Paging/Fault.antt =====
-- The handler of page faults in src/kernel/mm/paging.c, with the masks of
-- src/kernel/include/mm/paging.h.
use cerberos.Base.{ℕ, ◌^◌, bit_and, ◌≡◌, refl, sym, List, [], ◌∷◌, if◌then◌else◌, ◌==◌, arith}
use cerberos.Bits.{test_bit}
use cerberos.Bits.Single.{masked_bit}

-- PAGE_FAULT_P_MASK, PAGE_FAULT_WR_MASK, PAGE_FAULT_US_MASK, PAGE_FAULT_RSVD_MASK,
-- PAGE_FAULT_IF_MASK, PAGE_FAULT_PK_MASK and PAGE_FAULT_SGX_MASK
abbrev pub page_fault_p_mask : ℕ
page_fault_p_mask = 2 ^ 0

abbrev pub page_fault_wr_mask : ℕ
page_fault_wr_mask = 2 ^ 1

abbrev pub page_fault_us_mask : ℕ
page_fault_us_mask = 2 ^ 2

abbrev pub page_fault_rsvd_mask : ℕ
page_fault_rsvd_mask = 2 ^ 3

abbrev pub page_fault_if_mask : ℕ
page_fault_if_mask = 2 ^ 4

abbrev pub page_fault_pk_mask : ℕ
page_fault_pk_mask = 2 ^ 5

abbrev pub page_fault_sgx_mask : ℕ
page_fault_sgx_mask = 2 ^ 15

-- The messages, by what they say; the last one is that of the panic.
pub data Message : Type 0 where
  linear_address error_code : ℕ → Message
  protection_violation non_present write_access read_access user_mode supervisor_mode : Message
  reserved_bit no_reserved_bit instruction_fetch no_instruction_fetch : Message
  protection_key no_protection_key sgx no_sgx page_fault_occurred : Message

-- `if (error_code & mask) log(yes); else log(no);`
abbrev pub message_of : ℕ → ℕ → Message → Message → Message
message_of code mask set clear = if bit_and code mask == 0 then clear else set

-- What the handler logs before it halts, of `cr2` and the error code.
pub page_fault_intr_handler : ℕ → ℕ → List Message
page_fault_intr_handler cr2 code =
    linear_address cr2
    ∷ error_code code
    ∷ message_of code page_fault_p_mask protection_violation non_present
    ∷ message_of code page_fault_wr_mask write_access read_access
    ∷ message_of code page_fault_us_mask user_mode supervisor_mode
    ∷ message_of code page_fault_rsvd_mask reserved_bit no_reserved_bit
    ∷ message_of code page_fault_if_mask instruction_fetch no_instruction_fetch
    ∷ message_of code page_fault_pk_mask protection_key no_protection_key
    ∷ message_of code page_fault_sgx_mask sgx no_sgx
    ∷ page_fault_occurred
    ∷ []

-- What a bit of an error code says.
abbrev pub cause : ℕ → ℕ → Message → Message → Message
cause code bit set clear = if test_bit code bit then set else clear

message_of-cause :
    (code bit : ℕ) (set clear : Message)
    → message_of code (2 ^ bit) set clear ≡ cause code bit set clear
message_of-cause code bit set clear = ground (arith, masked_bit code bit)

-- The handler logs the address and the error code, then whether each of the bits 0 to 5 and 15 of
-- the code is set, and halts.
pub page_fault_intr_handler_lem :
    (cr2 code : ℕ)
    → page_fault_intr_handler cr2 code
      ≡ linear_address cr2
        ∷ error_code code
        ∷ cause code 0 protection_violation non_present
        ∷ cause code 1 write_access read_access
        ∷ cause code 2 user_mode supervisor_mode
        ∷ cause code 3 reserved_bit no_reserved_bit
        ∷ cause code 4 instruction_fetch no_instruction_fetch
        ∷ cause code 5 protection_key no_protection_key
        ∷ cause code 15 sgx no_sgx
        ∷ page_fault_occurred
        ∷ []
unfolding page_fault_intr_handler
page_fault_intr_handler_lem cr2 code =
    rw
      (
        sym (message_of-cause code 0 protection_violation non_present),
        sym (message_of-cause code 1 write_access read_access),
        sym (message_of-cause code 2 user_mode supervisor_mode),
        sym (message_of-cause code 3 reserved_bit no_reserved_bit),
        sym (message_of-cause code 4 instruction_fetch no_instruction_fetch),
        sym (message_of-cause code 5 protection_key no_protection_key),
        sym (message_of-cause code 15 sgx no_sgx),
      )
      refl
