-- ===== src/HttpServer/Resources.antt =====
-- The resources of app/src/http_server.c: the page at `/` and the pair at `/api/sensor`.
use Prim.Native.String.{String}
use zephyr_development.Prelude.{ℕ, ◌-◌, ◌≡◌, refl, List, [], ◌∷◌, ◌++◌, ℤ, length, drop}
use zephyr_development.Joystick.Hal.{JoystickData}
use zephyr_development.HttpServer.{Status, Response, Resource, codes, sensor_cb}

-- The methods of `bitmask_of_supported_http_methods` that the file names.
pub data Method : Type 0 where
  http_get http_post : Method

abbrev pub Callback : Type 0
Callback = JoystickData → ℕ → Status → Resource → Response → ℤ × Resource × Response

pub data Detail : Type 0 where
  http_resource_detail_static :
      (methods : List Method) (content_type : String) (static_data : List ℕ) (static_data_len : ℕ)
      → Detail
  http_resource_detail_dynamic :
      (methods : List Method) (content_type : String) (cb : Callback) → Detail

-- The bytes of the array: the text in UTF-8, and the zero that ends a string literal.
abbrev pub index_html : List ℕ
index_html =
    codes "<html><head><title>"
    ++ (0xc4 ∷ 0x90 ∷ codes "inh H")
    ++ (0xe1 ∷ 0xbb ∷ 0xaf ∷ codes "u Nam</title>")
    ++ codes "<meta charset=\"UTF-8\">"
    ++ codes "<style>body{font-family:Arial;margin:40px;background:#f0f4f8;}"
    ++ codes ".card{background:white;padding:20px;border-radius:8px;"
    ++ codes "box-shadow:0 2px 8px rgba(0,0,0,.1);}</style>"
    ++ codes "</head><body>"
    ++ codes "<div class=\"card\"><h1>dinhnamuet</h1>"
    ++ codes "<p>Status: <b>Online</b></p>"
    ++ codes "<p><a href=\"/api/sensor\">JoyStick</a></p>"
    ++ codes "</div></body></html>"
    ++ 0 ∷ []

abbrev pub my_res_detail : Detail
my_res_detail =
    http_resource_detail_static (http_get ∷ []) "text/html" index_html (length index_html)

abbrev pub sensor_detail : Detail
sensor_detail =
    http_resource_detail_dynamic (http_get ∷ http_post ∷ []) "application/json" sensor_cb

abbrev pub http_port : ℕ
http_port = 80

-- The resources of the service, by path.
abbrev pub my_http_service : List (String × Detail)
my_http_service = ("/", my_res_detail) ∷ ("/api/sensor", sensor_detail) ∷ []

-- What a client gets of a static resource.
abbrev served : Detail → List ℕ
served (http_resource_detail_static methods content_type static_data static_data_len) = static_data
served (http_resource_detail_dynamic methods content_type cb) = []

-- The page ends with the zero of the string literal, which `sizeof` counts.
page_ends_in_zero : drop (length index_html - 1) (served my_res_detail) ≡ 0 ∷ []
page_ends_in_zero = refl
