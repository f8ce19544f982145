-- ===== src/Http.antt =====
-- What the client and the server use of the requests and responses of net/http. A body is of any type.
use yafe.Prelude.{ℕ, List, [], ◌∷◌, if◌then◌else◌}
use yafe.Text.{Text, codes, text_eq}

pub data Method : Type 0 where
  get post put delete : Method

pub record HttpRequest (D : Type 0) : Type 0 where
  pub method : Method
  pub url : Text
  pub headers : List (Text × Text)
  pub body : D

pub record HttpResponse (D : Type 0) : Type 0 where
  pub status_code : ℕ
  pub body : D

-- `Header.Get`, which is empty where there is no such header.
unfoldable pub header : Text → List (Text × Text) → Text
header key [] = []
header key ((name, value) ∷ headers) = if text_eq name key then value else header key headers

-- `HeaderAPIKey` of internal/auth/middleware.go
abbrev pub api_key_header : Text
api_key_header = codes "X-Api-Key"
