-- ===== src/Fwrule/Index/Dimensions.antt =====
-- The dimensions of the index as instances of the interface.
use rulehawk.Common.{List, some, subst, some_inj}
use rulehawk.Fwrule.Index.Addrs
use rulehawk.Fwrule.Index.Ports
use rulehawk.Fwrule.Index.Dimension.{Dimension}
use rulehawk.Common.Text.{Text}
use rulehawk.Fwrule.Index.Addrs.{AddrDim, add_addrs, query_addrs}
use rulehawk.Fwrule.Index.Ports.{PortDim, add_ports, query_ports}
use rulehawk.Fwrule.Index.Words.{
  word_dimension, iface_wildcard, proto_wildcard, iface_Covering, proto_Covering,
}
use rulehawk.Fwrule.Rule.{iface_covers, proto_covers, ports_cover, addrs_cover}
use rulehawk.Fwrule.Index.Ports.Laws.{add_ports-IsSorted}
use rulehawk.Fwrule.Index.Addrs.Laws.{add_addrs-IsSorted, add_addrs-Has_new, add_addrs-Has_old}
use rulehawk.Fwrule.Index.Ports.Keeps.{add_ports-Has_new, add_ports-Has_old}
use rulehawk.Fwrule.Index.Ports.Query.{query_ports-SortedDim, query_ports_complete}
use rulehawk.Fwrule.Postings.Sorted.{SortedDim, InDim}
use rulehawk.Fwrule.Index.Addrs.Query.{query_addrs-SortedDim, query_addrs_complete}

abbrev pub iface_dimension : Dimension Text
iface_dimension = word_dimension iface_wildcard iface_covers iface_Covering

abbrev pub proto_dimension : Dimension Text
proto_dimension = word_dimension proto_wildcard proto_covers proto_Covering

abbrev pub addr_dimension : Dimension (List Text)
addr_dimension = record {
  Dim = AddrDim;
  add = add_addrs;
  query = λ d g. some (query_addrs d g);
  covers = addrs_cover;
  IsClean = Addrs.Laws.IsClean;
  IsSorted = Addrs.Laws.IsSorted;
  Has = Addrs.Laws.Has;
  skip-IsSorted = Addrs.Laws.skip-IsSorted;
  add-IsSorted = add_addrs-IsSorted;
  add-Has_new = add_addrs-Has_new;
  add-Has_old = add_addrs-Has_old;
  query-SortedDim =
      λ P n d g lists s e. subst (SortedDim P n) (some_inj e) (query_addrs-SortedDim P n d g s);
  query_complete = λ d j f g lists cf cg h c e.
      subst (InDim j) (some_inj e) (query_addrs_complete d j f g cf cg h c);
}

abbrev pub port_dimension : Dimension (List Text)
port_dimension = record {
  Dim = PortDim;
  add = add_ports;
  query = query_ports;
  covers = ports_cover;
  IsClean = λ g. Unit;
  IsSorted = Ports.Laws.IsSorted;
  Has = Ports.Laws.Has;
  skip-IsSorted = Ports.Laws.skip-IsSorted;
  add-IsSorted = add_ports-IsSorted;
  add-Has_new = add_ports-Has_new;
  add-Has_old = add_ports-Has_old;
  query-SortedDim = query_ports-SortedDim;
  query_complete = λ d j f g lists _ _ h c e. query_ports_complete d j f g lists h c e;
}
