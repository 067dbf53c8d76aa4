-- ===== src/Errors.antt =====
-- include/nvm_error.h and src/error.cpp: status codes of completions, packed into an `int` next to errno
-- values, and the texts for them.
pub mod Status
use atc26_shaper_io.Prelude.{
  ℕ, zero, suc, ◌+◌, ◌-◌, ◌*◌, ◌/◌, ◌%◌, ◌^◌, ◌&&◌, Option, none, some, List, [], ◌∷◌, not, bit_and,
  bit_or, ◌==◌, ltb, leb, if◌then◌else◌,
}
use Prim.Native.String.{String}
use atc26_shaper_io.Util.{rb}

-- an `int`: `pos n` is n, `negsuc n` is -(n + 1)
pub data ℤ : Type 0 where
  pos : ℕ → ℤ
  negsuc : ℕ → ℤ

-- `-x`
abbrev pub neg : ℕ → ℤ
neg zero = pos 0
neg (suc n) = negsuc n

-- A completion stands here by its status field, a 16-bit word; NULL is `none`.
pub err_sct : ℕ → ℕ
err_sct status = rb status 11 9 % 2 ^ 8

pub err_sc : ℕ → ℕ
err_sc status = rb status 8 1 % 2 ^ 8

pub err_status : Option ℕ → ℤ
err_status none = pos 0
err_status (some status) = neg (bit_or (err_sct status * 2 ^ 8) (err_sc status))

-- `err` is 0 or an errno.
pub err_pack : Option ℕ → ℕ → ℤ
err_pack cpl err = if err == 0 then err_status cpl else pos err

pub err_unpack_errno : ℤ → ℕ
err_unpack_errno (pos n) = n
err_unpack_errno (negsuc n) = 0

pub err_unpack_sct : ℤ → ℕ
err_unpack_sct (pos n) = 0
err_unpack_sct (negsuc n) = bit_and (suc n / 2 ^ 8) 0xff

pub err_unpack_sc : ℤ → ℕ
err_unpack_sc (pos n) = 0
err_unpack_sc (negsuc n) = bit_and (suc n) 0xff

abbrev pub generic_status : List String
generic_status =
    "Success" ∷ "Invalid command opcode" ∷ "Invalid field in command" ∷ "Command ID conflict"
    ∷ "Data transfer error" ∷ "Commands aborted due to power loss notification" ∷ "Internal error"
    ∷ "Command abort requested" ∷ "Command aborted due to SQ deletion"
    ∷ "Command aborted due to failed fused command" ∷ "Command aborted due to missing fused command"
    ∷ "Invalid namespace or format" ∷ "Command sequence error" ∷ "Invalid SGL segment descriptor"
    ∷ "Invalid number of SQL descriptors" ∷ "Data SGL length invalid"
    ∷ "Metadata SGL length invalid" ∷ "SGL descriptor type invalid"
    ∷ "Invalid use of controller memory buffer" ∷ "PRP offset invalid"
    ∷ "Atomic write unit exceeded" ∷ "Operation denied" ∷ "SGL offset invalid" ∷ "Unknown/reserved"
    ∷ "Host identifier inconsistent format" ∷ "Keep alive timer expired"
    ∷ "Keep alive timer invalid" ∷ "Command aborted due to preempt and abort" ∷ "Sanitize failed"
    ∷ "Sanitize in progress" ∷ "SGL data block granularity invalid"
    ∷ "Command not supported for queue in CMB" ∷ []

abbrev pub generic_status_nvm_commands : List String
generic_status_nvm_commands =
    "LBA out of range" ∷ "Capacity exceeded" ∷ "Namespace not ready" ∷ "Reservation conflict"
    ∷ "Format in progress" ∷ []

abbrev pub command_specific_status : List String
command_specific_status =
    "Completion queue invalid" ∷ "Invalid queue identifier" ∷ "Invalid queue size"
    ∷ "Abort command limit exceeded" ∷ "Unknown/reserved"
    ∷ "Asynchronous event request limit exceeded" ∷ "Invalid firmware slot"
    ∷ "Invalid firmware image" ∷ "Invalid interrupt vector" ∷ "Invalid log page" ∷ "Invalid format"
    ∷ "Firmware activation requires conventional reset" ∷ "Invalid queue deletion"
    ∷ "Feature identifier not saveable" ∷ "Feature not changeable"
    ∷ "Feature not namespace specific" ∷ "Firmware activation requires NVM subsystem reset"
    ∷ "Firmware activation requires reset" ∷ "Firmware activation requires maximum time violation"
    ∷ "Firmware activation prohibited" ∷ "Overlapping range" ∷ "Namespace insufficient capacity"
    ∷ "Namespace identifier unavailable" ∷ "Unknown/reserved" ∷ "Namespace already attached"
    ∷ "Namespace is private" ∷ "Namespace not attached" ∷ "Thin provisioning not supported"
    ∷ "Controller list invalid" ∷ "Device self-test in progress" ∷ "Boot partition write prohibited"
    ∷ "Invalid controller identifier" ∷ "Invalid secondary controller state"
    ∷ "Invalid number of controller resources" ∷ "Invalid resource identifier" ∷ []

abbrev pub command_specific_status_nvm_commands : List String
command_specific_status_nvm_commands =
    "Conflicting attributes" ∷ "Invalid protection information"
    ∷ "Attempted write to read only range" ∷ []

abbrev pub media_and_data_integrity_nvm_commands : List String
media_and_data_integrity_nvm_commands =
    "Write fault" ∷ "Unrecovered read error" ∷ "End-to-end guard check error"
    ∷ "End-to-end application tag check error" ∷ "End-to-end reference tag check error"
    ∷ "Compare failure" ∷ "Access denied" ∷ "Deallocated or unwritten logical block" ∷ []

-- Element `i` of a table; `none` where the read is out of bounds.
abbrev pub get_elem? : List String → ℕ → Option String
get_elem? [] i = none
get_elem? (x ∷ xs) zero = some x
get_elem? (x ∷ xs) (suc i) = get_elem? xs i

pub lookup_string : ℕ → ℕ → Option String
lookup_string status_code_type status_code =
    let nvm = get_elem? generic_status_nvm_commands (status_code - 0x80) in
    let command_nvm = get_elem? command_specific_status_nvm_commands (status_code - 0x80) in
    let media_nvm = get_elem? media_and_data_integrity_nvm_commands (status_code - 0x80) in
    let generic =
      if ltb status_code 0x20
      then get_elem? generic_status status_code
      else (if leb 0x80 status_code && leb status_code 0x84
          then nvm
          else some "Unknown generic error") in
    let command =
      if ltb status_code 0x23
      then get_elem? command_specific_status status_code
      else (if leb 0x80 status_code && leb status_code 0x82
          then command_nvm
          else some "Unknown command specific error") in
    let media =
      if leb 0x80 status_code && leb status_code 0x87
      then media_nvm
      else some "Unknown media or data integrity error" in
    if status_code_type == 0x00
    then generic
    else (if status_code_type == 0x01
        then command
        else (if status_code_type == 0x02 then media else some "Unknown status code type"))

-- `strerror` is an argument.
pub nvm_strerror : (ℕ → String) → ℤ → Option String
nvm_strerror strerror status =
    let err = err_unpack_errno status in
    let sct = err_unpack_sct status in
    let sc = err_unpack_sc status in
    if (sct == 0) && (sc == 0) then some (strerror err) else lookup_string sct sc
