-- ===== src/Lib.antt =====
-- The Java generator of Proteus, `compiler/src/java_plugin/cpp`: a plugin of `protoc` that reads the
-- services of a `.proto` file and prints, for each, a Java interface, a client class and a server
-- class that talk RSocket.
--
-- `java_plugin.cpp`, Plugin: `Generate` reads the options, finds the directory of the Java package and
-- opens three files for each service. ParseGeneratorParameter is a parameter of `generate`, and a file
-- is a value: its name and the effects on its printer.
--
-- `java_generator.cpp`:
--   Generate       `GenerateInterface`, `GenerateClient`, `GenerateServer` and `ServiceJavaPackage`:
--                  the map of variables that each file begins with, and the `package` line.
--   Interface      `PrintInterface`, with the constants that number the service and its methods.
--   Client         `PrintClient`; Client.Methods has the two Java methods of each method, Client.Codec
--                  the serializer and the parser.
--   Server         `PrintServer`; Server.Groups has the four vectors of methods, Server.Handlers a
--                  handler for each interaction model, Server.Codec the serializer and the parser.
--   Service        the tests and variables that the three printers share.
--   Javadoc        `EscapeJavadoc`, `GetDocLines` and the functions that print comments.
--   Split          `Split`, with its shortcut for one delimiter and its general path.
--   Names, Ids     `MixedLower`, `ToAllUpperCase`, `Hash` and the small functions over descriptors.
--   Chars          the case functions of the C library, in the C locale.
-- `java_generator.h` declares the flavor, which is in Generate.
--
-- How state is modelled. The C++ changes one map of variables and calls one printer. Here a function
-- returns the sequence of these effects (Emit): an assignment to the map, a print with the map, with
-- no variables or with one of its own, `Indent()` and `Outdent()`. Every text is the source's, and the
-- parts are put together as the source does. Emit.Printer carries the effects out, one after the
-- other, on any printer that keeps the laws of the record Printer: what protobuf documents of
-- `google::protobuf::io::Printer`, which aborts on a variable that the map lacks, on a name that is
-- not closed and on an `Outdent()` too many. Emit.Template reads the names in a text between `$`.
-- Emit.Safe has the rules by which the safety of a file follows from that of its parts, Emit.Values
-- those by which one finds the values that a variable has wherever a text is printed, Emit.Braces those
-- for the curly braces of the texts, Emit.Sections those for the values in one part of a file, and
-- Emit.Mute those for effects that change no variable. Agree uses the values to compare the three files
-- of a service, and Classes finds the class that each of them declares.
--
-- Numbers and fuel. Texts are lists of bytes. An `int32_t` is its bit pattern, a number below 2^32,
-- and the product of the hash is taken modulo 2^32. A delimiter of `Split` is a C string, so it holds
-- no NUL. The loops of `Split` run on the length of the text, since every round moves forward; the
-- digits of a number run on fuel 10, which is enough for every number below 10^10. All other loops follow a list.
--
-- Not modelled: protobuf's classes (descriptors are records with the fields that are read, its Java
-- `ClassName` and the macro PROTEUS_VERSION are the record Build), `main`, the logging macros of the
-- header, which nothing uses, and the Java side of the repository, whose classes the texts only name.
mod Common
pub mod Emit
pub mod Chars
pub mod Names
pub mod Descriptor
pub mod Ids
pub mod Split
pub mod Javadoc
pub mod Service
pub mod Interface
pub mod Client
pub mod Server
pub mod Generate
pub mod Agree
pub mod Classes
pub mod Plugin
pub mod Examples
