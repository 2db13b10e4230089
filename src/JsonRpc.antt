-- ===== src/JsonRpc.antt =====
-- src/jsonrpc.rs: the accessor of a message's method. `decode` and `encode` are serde_json's: the
-- components that call them take them as parameters.
use rust_yamp.Prelude.{Text, ascii, Option}
use rust_yamp.Json.{Json, get_str}

unfoldable pub method_of : Json → Option Text
method_of value = get_str value (ascii "method")
