-- ===== src/Gateway/Http.antt =====
-- What the gateway's handlers use of Go's net/http and net/http/httputil. Headers are kept under their
-- lower-case names, which is how Go tells them apart. Left out is that ReverseProxy answers a request by
-- itself where its Upgrade is not printable ASCII.
use agentland.Base.{ℕ, Bool, false, not, ◌&&◌, ◌||◌, List, [], ◌∷◌, ◌++◌, ◌==◌, if◌then◌else◌}
use mathlib.Core.List.{reverse}
use agentland.Text.{Bytes, bytes, bytes_eq, strip, to_lower}
use agentland.Token.{is_empty}
use agentland.FilePath.{split}

abbrev pub Headers : Type 0
Headers = Bytes → List Bytes

abbrev pub first_of : List Bytes → Bytes
first_of [] = []
first_of (v ∷ vs) = v

abbrev pub get : Bytes → Headers → Bytes
get name h = first_of (h (to_lower name))

abbrev pub put : Bytes → List Bytes → Headers → Headers
put name vs h k = if bytes_eq (to_lower name) k then vs else h k

abbrev pub set : Bytes → Bytes → Headers → Headers
set name v h = put name (v ∷ []) h

abbrev pub del : Bytes → Headers → Headers
del name h = put name [] h

-- textproto.TrimString
abbrev pub blank_width : Bytes → ℕ
blank_width [] = 0
blank_width (c ∷ s) = if c == 32 || c == 9 || c == 10 || c == 13 then 1 else 0

unfoldable pub trim_string : Bytes → Bytes
unfolding strip
trim_string s = reverse (strip blank_width 0 (reverse (strip blank_width 0 s)))

-- The names in lists with commas, under which headers are kept.
unfoldable pub listed_names : List Bytes → List Bytes
unfolding trim_string split to_lower
listed_names [] = []
listed_names (v ∷ vs) = names (split b',' v) ++ listed_names vs
  where
    names : List Bytes → List Bytes
    names [] = []
    names (n ∷ ns) = to_lower (trim_string n) ∷ names ns

unfoldable pub mentions : Bytes → List Bytes → Bool
mentions k [] = false
mentions k (n ∷ ns) = (not (is_empty n) && bytes_eq n k) || mentions k ns

abbrev pub hop_headers : List Bytes
hop_headers =
    bytes "connection"
    ∷ bytes "proxy-connection"
    ∷ bytes "keep-alive"
    ∷ bytes "proxy-authenticate"
    ∷ bytes "proxy-authorization"
    ∷ bytes "te"
    ∷ bytes "trailer"
    ∷ bytes "transfer-encoding"
    ∷ bytes "upgrade"
    ∷ []

-- The headers for one hop, and those that the header Connection names, are not sent on.
abbrev pub connection_names : Headers → List Bytes
connection_names h = listed_names (h (bytes "connection"))

abbrev pub remove_hop_by_hop : Headers → Headers
remove_hop_by_hop h k =
    if mentions k (connection_names h) || mentions k hop_headers then [] else h k

-- Trailers and a change of protocol are asked for again, where they were.
abbrev pub with_trailers : List Bytes → Headers → Headers
with_trailers te h =
    if mentions (bytes "trailers") (listed_names te)
    then set (bytes "Te") (bytes "trailers") h
    else h

abbrev pub upgrade_type : Headers → Bytes
upgrade_type h =
    if mentions (bytes "upgrade") (connection_names h) then get (bytes "Upgrade") h else []

abbrev pub with_upgrade : Bytes → Headers → Headers
with_upgrade kind h =
    if is_empty kind
    then h
    else set (bytes "Upgrade") kind (set (bytes "Connection") (bytes "Upgrade") h)

abbrev pub comma_joined : List Bytes → Bytes → Bytes
comma_joined [] client = client
comma_joined (v ∷ vs) client = v ++ (bytes ", " ++ comma_joined vs client)

-- The client's address, where it is known.
abbrev pub with_client : Bytes → Headers → Headers
with_client client h =
    if is_empty client
    then h
    else set (bytes "X-Forwarded-For") (comma_joined (h (bytes "x-forwarded-for")) client) h

abbrev pub agent_or_none : List Bytes → List Bytes
agent_or_none [] = [] ∷ []
agent_or_none (v ∷ vs) = v ∷ vs

abbrev pub with_agent : Headers → Headers
with_agent h = put (bytes "User-Agent") (agent_or_none (h (bytes "user-agent"))) h

-- What ReverseProxy sends for the headers of a request and those that its Director has made of them.
abbrev pub proxied : Bytes → Headers → Headers → Headers
proxied client incoming h = with_agent (
    with_client client
      (with_upgrade (upgrade_type h) (with_trailers (incoming (bytes "te")) (remove_hop_by_hop h))))
