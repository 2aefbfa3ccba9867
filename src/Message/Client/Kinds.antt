-- ===== src/Message/Client/Kinds.antt =====
-- The enumeration of examples/message/client_message_generated.h: which message a packet holds. Any value of its
-- underlying `uint8_t` may occur.
use cpp_iocplib.Base.{ℕ, suc, zero, Bool, List, [], ◌∷◌, Option, none, some, if◌then◌else◌}
use Prim.Native.String.{String}

abbrev pub packet_type_none : ℕ
packet_type_none = 0

abbrev pub packet_type_login_request : ℕ
packet_type_login_request = 1

abbrev pub packet_type_logout_request : ℕ
packet_type_logout_request = 2

abbrev pub packet_type_connect_server_request : ℕ
packet_type_connect_server_request = 3

abbrev pub packet_type_min : ℕ
packet_type_min = packet_type_none

abbrev pub packet_type_max : ℕ
packet_type_max = packet_type_connect_server_request

abbrev pub enum_values_packet_type : List ℕ
enum_values_packet_type =
    packet_type_none ∷ packet_type_login_request ∷ packet_type_logout_request
    ∷ packet_type_connect_server_request ∷ []

-- The last name is null.
abbrev pub enum_names_packet_type : List (Option String)
enum_names_packet_type =
    some "NONE"
    ∷ some "LoginRequest"
    ∷ some "LogoutRequest"
    ∷ some "ConnectServerRequest"
    ∷ none
    ∷ []

-- The element at an index; `none` also behind the end.
abbrev pub name_at : ℕ → List (Option String) → Option String
name_at i [] = none
name_at zero (x ∷ xs) = x
name_at (suc i) (x ∷ xs) = name_at i xs

-- `IsOutRange` is the library's. A value out of the range has the empty name.
unfoldable pub enum_name_packet_type : (ℕ → ℕ → ℕ → Bool) → ℕ → Option String
enum_name_packet_type is_out_range e =
    if is_out_range e packet_type_none packet_type_connect_server_request
    then some ""
    else name_at e enum_names_packet_type

-- The tables that a packet can hold, and `PacketTypeTraits` of each.
pub data Kind : Type 0 where
  login_request logout_request connect_server_request : Kind

abbrev pub enum_value : Kind → ℕ
enum_value login_request = packet_type_login_request
enum_value logout_request = packet_type_logout_request
enum_value connect_server_request = packet_type_connect_server_request
