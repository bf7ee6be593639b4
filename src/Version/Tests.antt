-- ===== src/Version/Tests.antt =====
-- The theorems on versions at two of them.
use polynomial.Prelude.{◌≡◌, some}
use polynomial.Version.{byzantium, name, from_string}
use polynomial.Version.Laws.{from_string-name}

from_string-name_example : from_string (name byzantium) ≡ some byzantium
from_string-name_example = from_string-name byzantium
