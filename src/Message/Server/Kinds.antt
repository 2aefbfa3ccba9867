-- ===== src/Message/Server/Kinds.antt =====
-- The enumeration of examples/message/server_message_generated.h: which message a packet holds. Any value of its
-- underlying `uint8_t` may occur.
use cpp_iocplib.Base.{ℕ, suc, zero, Bool, List, [], ◌∷◌, Option, none, some, if◌then◌else◌}
use Prim.Native.String.{String}

abbrev pub packet_type_none : ℕ
packet_type_none = 0

abbrev pub packet_type_login_result : ℕ
packet_type_login_result = 1

abbrev pub packet_type_logout_result : ℕ
packet_type_logout_result = 2

abbrev pub packet_type_connect_server_result : ℕ
packet_type_connect_server_result = 3

abbrev pub packet_type_min : ℕ
packet_type_min = packet_type_none

abbrev pub packet_type_max : ℕ
packet_type_max = packet_type_connect_server_result

abbrev pub enum_values_packet_type : List ℕ
enum_values_packet_type =
    packet_type_none ∷ packet_type_login_result ∷ packet_type_logout_result
    ∷ packet_type_connect_server_result ∷ []

-- The last name is null.
abbrev pub enum_names_packet_type : List (Option String)
enum_names_packet_type =
    some "NONE" ∷ some "LoginResult" ∷ some "LogoutResult" ∷ some "ConnectServerResult" ∷ none ∷ []

-- The element at an index; `none` also behind the end.
abbrev pub name_at : ℕ → List (Option String) → Option String
name_at i [] = none
name_at zero (x ∷ xs) = x
name_at (suc i) (x ∷ xs) = name_at i xs

-- `IsOutRange` is the library's. A value out of the range has the empty name.
unfoldable pub enum_name_packet_type : (ℕ → ℕ → ℕ → Bool) → ℕ → Option String
enum_name_packet_type is_out_range e =
    if is_out_range e packet_type_none packet_type_connect_server_result
    then some ""
    else name_at e enum_names_packet_type

-- The tables that a packet can hold, and `PacketTypeTraits` of each.
pub data Kind : Type 0 where
  login_result logout_result connect_server_result : Kind

abbrev pub enum_value : Kind → ℕ
enum_value login_result = packet_type_login_result
enum_value logout_result = packet_type_logout_result
enum_value connect_server_result = packet_type_connect_server_result
