-- ===== src/Lib.antt =====
-- ndn-cxx, the Named Data Networking library: its TLV packet layer, names, regular expressions on
-- names, link protocol packets, lists of delegations,
-- and the in-memory storage of packets.
--
-- The program: tlv.hpp reads and writes numbers of TLV headers; an Encoder is a buffer that grows at
-- both ends and an Estimator adds up the sizes of the same calls; a Block is a TLV element that has
-- its wire encoding, a value alone, or sub-elements, and is decoded, parsed, changed and encoded; the
-- block helpers make blocks with an estimator and an encoder; a name component is a block with a
-- restricted TLV-TYPE, with an order, a successor, and numbers under two naming conventions; a name
-- is a block whose sub-elements are components. A regular expression on names compiles to a tree of
-- matchers, each of which matches a range of components by backtracking. The in-memory storage keeps
-- packets in the order of their full names, in entries of a pool whose size grows up to a limit;
-- where it is full, a policy (FIFO, LRU, LFU) chooses the packet that makes room. A link protocol
-- packet (NDNLPv2) is a block whose sub-elements are header fields and a fragment, which carries an
-- Interest or a Data between neighbours. A list of delegations (names with a preference) is kept
-- sorted, or in the order of insertion until sort() is called.
--
-- The files, and the code that each is about (paths from the repository's root):
--   Base         shared names, Boolean tests, lists, bits, and memcmp of the C library
--   Errors       the exceptions, as values (tlv::Error and the classes derived from it)
--   Tlv          ndn-cxx/encoding/tlv.hpp: readVarNumber is read_var_number? (noexcept) and
--                read_var_number (throwing), and likewise readType
--   Encoder      ndn-cxx/encoding/encoder.hpp, encoder.cpp and estimator.hpp, and the
--                `template<Tag>` writers of block-helpers.cpp: the buffer, m_begin and m_end are a
--                record, an operation returns the encoder afterwards and the length
--   Block        ndn-cxx/encoding/block.hpp, block.cpp and block-helpers.cpp: the shared buffer and
--                the iterators into it are the bytes that they delimit
--   Component    ndn-cxx/name-component.hpp, name-component.cpp and impl/name-component-types.hpp:
--                a component is a Block, the global conventions are arguments
--   Name         ndn-cxx/name.hpp and name.cpp: a name is its field m_wire, the indices are signed
--   Escape       ndn-cxx/util/string-helper.hpp and string-helper.cpp: percent-encoding
--   Storage      ndn-cxx/ims: m_limit, m_capacity, m_nPackets, m_freeEntries, m_cache and
--                m_cleanupIndex are the record Storage; what it asks of Name and Data is the record
--                Packets, which Storage/Names fills for names in the shortest form; the derived
--                classes are the constructors of Policy; Operations has insert, find and erase,
--                Capacity has setCapacity, Policies the virtual functions
--   Delegations  ndn-cxx/delegation.hpp, delegation-list.hpp and delegation-list.cpp: m_isSorted and
--                m_dels are the record DelegationList, a name is a Block; std::upper_bound is the
--                first delegation that is greater
--   Lp           ndn-cxx/lp/packet.hpp, packet.cpp, fields.hpp, field-decl.hpp, nack-header.cpp and
--                cache-policy.cpp: a packet is its field m_wire, an operation of a FIELD takes its
--                TLV-TYPE, whether it is repeatable, and the element of its value or the exception
--                of making it; Lp/Field and Lp/Headers make and read elements
--   Regex        ndn-cxx/util/regex: the matchers are the type Regex, match(name, offset, len) takes
--                the components in that range; Parsing, Compiling and Expanding read texts
--
-- A byte is a number below 256, by a hypothesis where a theorem needs it; numbers of 32 and 64 bits
-- keep their wrap-around where the code can reach it. `throw` is the error of a result. The loop of
-- parse() runs on fuel, the number of bytes of the value, which is enough as each round takes two
-- bytes or more; the eviction loop of setCapacity runs on one round for each value of the cleanup
-- index and each failure that is allowed; a repetition of a regular expression runs on more rounds
-- than the name has components, which is enough where each round takes one; compile() runs on the
-- length of its text. The other loops are structural. A three-way comparison is its sign.
--
-- Not modelled: streams and printing, doubles, the sharing of buffers (blocks never write to them),
-- time points, URIs, PrefixAnnouncementHeader (what its encoding makes is an argument of add and set),
-- std::regex (a parameter: which texts it accepts and what they match), the frequency index of
-- boost::multi_index (a record of what is documented of it), and the rest of the library: Interest
-- and Data, faces, security, management.
pub mod Base
pub mod Errors
pub mod Tlv
pub mod Encoder
pub mod Block
pub mod Component
pub mod Name
pub mod Escape
pub mod Storage
pub mod Regex
pub mod Lp
pub mod Delegations
