-- ===== src/Xml.antt =====
-- libsouth_interface/southxml.h and southxml.cpp: the XML of a monitor, and its upload. What the
-- code asks of TinyXML, a copy of another project, is the list of its calls, in which `new` numbers
-- the nodes from 1 on; `new` is taken to get memory. A text is its bytes.
pub mod Make
pub mod Upload
pub mod Pages
pub mod Adding
pub mod Monitors
pub mod Laws
pub mod Composition
mod Tests
use boring.Prelude.{ℕ, suc, List, [], ◌∷◌, ◌++◌}
use boring.Prelude.Int.{ℤ}
use boring.South.{Str}

pub data Call : Type 0 where
  document : ℕ → Call
  declaration : ℕ → Call
  element : ℕ → Str → Call
  text : ℕ → Str → Call
  link : ℕ → ℕ → Call
  attribute : ℕ → Str → Str → Call
  number : ℕ → Str → ℤ → Call
  print_file : ℕ → Call

-- The calls made so far, the number of the next node, and the static string of `toUtf8`.
pub record Page : Type 0 where
  pub calls : List Call
  pub nodes : ℕ
  pub last : Str

-- `XML_NODE_MNTR_SERIVICE` and the others, as the source files have them (in GBK).
abbrev pub node_service : Str
node_service = 188 ∷ 224 ∷ 191 ∷ 216 ∷ 183 ∷ 254 ∷ 206 ∷ 241 ∷ []

abbrev pub node_info : Str
node_info = 188 ∷ 224 ∷ 191 ∷ 216 ∷ 208 ∷ 197 ∷ 207 ∷ 162 ∷ []

abbrev pub node_ctl_cmd : Str
node_ctl_cmd = 191 ∷ 216 ∷ 214 ∷ 198 ∷ 195 ∷ 252 ∷ 193 ∷ 238 ∷ []

abbrev pub node_param : Str
node_param = 178 ∷ 206 ∷ 202 ∷ 253 ∷ []

abbrev pub prop_soft_name : Str
prop_soft_name = 200 ∷ 237 ∷ 188 ∷ 254 ∷ 195 ∷ 251 ∷ 179 ∷ 198 ∷ []

abbrev pub prop_name : Str
prop_name = 195 ∷ 251 ∷ 179 ∷ 198 ∷ []

abbrev pub prop_type : Str
prop_type = 192 ∷ 224 ∷ 208 ∷ 205 ∷ []

abbrev pub prop_unit : Str
prop_unit = 181 ∷ 165 ∷ 206 ∷ 187 ∷ []

-- The literal in `monitor_make_xml`.
abbrev pub prop_type_name : Str
prop_type_name = 192 ∷ 224 ∷ 208 ∷ 205 ∷ 195 ∷ 251 ∷ 179 ∷ 198 ∷ []
